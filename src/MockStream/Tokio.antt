-- ===== src/MockStream/Tokio.antt =====
-- src/mock_stream.rs in its form for tokio. The crate's `ReadBuf` is a parameter, with what it documents
-- of `remaining`, `filled` and `put_slice`.
use async_imap.Base.{
  ℕ, Bool-cases, inl, inr, sym, ◌-◌, ◌+◌, ◌≤◌, ◌≡◌, refl, Option, none, some, ◌++◌, append-nil,
  length, take, min, ltb, drop, leb, length-take, if◌then◌else◌, arith,
}
use async_imap.Base.Text.{Bytes}
use async_imap.Error.{IoError, IoResult, ok}
use async_imap.ImapStream.{ReadPoll, ready}
use async_imap.MockStream
use async_imap.MockStream.{MockStream, mock_error, eof_error, copied}
use async_imap.MockStream.Laws.{copied-le}

pub record ReadBuf (B : Type 0) : Type 0 where
  pub remaining : B → ℕ
  -- `none` is the panic on a slice that does not fit
  pub put_slice : Bytes → B → Option B

pub record ReadBufLaws {B : Type 0} (rb : ReadBuf B) : Type 0 where
  pub filled : B → Bytes
  pub put_slice_lem :
      (bytes : Bytes) (buf : B)
      → length bytes ≤ rb.remaining buf
      → (buf' : B) × (rb.put_slice bytes buf ≡ some buf')
        × (filled buf' ≡ filled buf ++ bytes)
        × (rb.remaining buf' ≡ rb.remaining buf - length bytes)

-- `Poll<Result<()>>`, or a panic.
pub data Read : Type 0 where
  done : Read
  failed : IoError → Read
  panicked : Read

module _ {B : Type 0} (rb : ReadBuf B) where
  unfoldable pub poll_read : B → MockStream → Read × B × MockStream
  poll_read buf s =
      if s.eof_on_read
      then (done, buf, s)
      else if s.err_on_read
      then (failed mock_error, buf, s)
      else if leb (length s.read_buf) s.read_pos
      then (failed eof_error, buf, s)
      else let fitting = min (rb.remaining buf) (length s.read_buf - s.read_pos) in
        let write_len = if ltb 0 s.read_delay then min fitting 1 else fitting in
        elim (rb.put_slice (take write_len (drop s.read_pos s.read_buf)) buf) [
          | none ↦ (panicked, buf, record s { read_delay = s.read_delay - 1 })
          | some buf' ↦ (
            done,
            buf',
            record s { read_pos = s.read_pos + write_len; read_delay = s.read_delay - 1 },
          )
        ]

unfoldable pub poll_write : Bytes → MockStream → IoResult ℕ × MockStream
poll_write buf s = (ok (length buf), record s { written_buf = s.written_buf ++ buf })

unfoldable pub poll_flush : MockStream → IoResult (Unit {0}) × MockStream
poll_flush s = (ok tt, s)

unfoldable pub poll_shutdown : MockStream → IoResult (Unit {0}) × MockStream
poll_shutdown s = (ok tt, s)

module _ {B : Type 0} {rb : ReadBuf B} (laws : ReadBufLaws rb) where
  -- What the buffer holds after a read, as the other form returns it.
  abbrev pub SameRead : B → ReadPoll → Read → B → Type 0
  SameRead buf (ready (ok bytes)) done buf' = laws.filled buf' ≡ laws.filled buf ++ bytes
  SameRead buf (ready (IoResult.err e)) (failed e') buf' = (e ≡ e') × (buf' ≡ buf)
  SameRead buf _ _ buf' = ⊥

  read_same :
      (buf : B) (s : MockStream)
      → SameRead buf
          (MockStream.poll_read (rb.remaining buf) s).0
          (poll_read rb buf s).0
          (poll_read rb buf s).1
        × ((poll_read rb buf s).2 ≡ (MockStream.poll_read (rb.remaining buf) s).1)
  unfolding poll_read MockStream.poll_read copied
  read_same buf s = elim (Bool-cases s.eof_on_read) [
    | inl eof ↦ rw eof (sym (append-nil (laws.filled buf)), refl)
    | inr on ↦ elim (Bool-cases s.err_on_read) [
      | inl failing ↦ rw (on, failing) ((refl, refl), refl)
      | inr fine ↦ elim (Bool-cases (leb (length s.read_buf) s.read_pos)) [
        | inl over ↦ rw (on, fine, over) ((refl, refl), refl)
        | inr more ↦
            let (buf', fits, filled_is, left) =
              laws.put_slice_lem (take len (drop s.read_pos s.read_buf)) buf (
                omega (
                  arith,
                  copied-le (rb.remaining buf) s,
                  length-take len (drop s.read_pos s.read_buf),
                )) in
            simp (on, fine, more, fits) (filled_is, refl)
      ]
    ]
  ]
    where
      len : ℕ
      len = copied (rb.remaining buf) s

  -- For any buffer that keeps what the crate documents: the form for tokio fills it with the bytes that
  -- the form for async-std copies into a slice as long as the buffer has room, fails with the same
  -- error, never panics, and leaves the stream in the same state; writes, flushes and the end of the
  -- stream are the same in both forms.
  pub poll_read-same :
      (buf : B) (bytes : Bytes) (s : MockStream)
      → SameRead buf
          (MockStream.poll_read (rb.remaining buf) s).0
          (poll_read rb buf s).0
          (poll_read rb buf s).1
        × ((poll_read rb buf s).2 ≡ (MockStream.poll_read (rb.remaining buf) s).1)
        × (poll_write bytes s ≡ MockStream.poll_write bytes s)
        × (poll_flush s ≡ MockStream.poll_flush s)
        × (poll_shutdown s ≡ MockStream.poll_close s)
  unfolding poll_write MockStream.poll_write poll_flush MockStream.poll_flush poll_shutdown
      MockStream.poll_close
  poll_read-same buf bytes s = ((read_same buf s).0, (read_same buf s).1, refl, refl, refl)
