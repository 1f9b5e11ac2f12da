-- ===== src/MockStream/Laws.antt =====
-- The stream of src/mock_stream.rs keeps what src/imap_stream.rs relies on.
use async_imap.Base.{
  ℕ, zero, suc, take_zero, ◌∷◌, ◌+◌, ◌≤◌, ◌≡◌, sym, ap, [], ◌++◌, append-nil, length, take, drop,
  take_all, length-take, arith,
}
use async_imap.Base.Text.{Bytes}
use async_imap.Error.{IoResult, ok}
use async_imap.ImapStream.Laws.{TransportLaws, read_bytes}
use async_imap.ImapStream.Writing.{WriterLaws}
use async_imap.MockStream.{MockStream, poll_read, copied, write_all, poll_write, mock}

take-add : (m n : ℕ) (xs : Bytes) → take (m + n) xs ≡ take m xs ++ take n (drop m xs)
take-add zero n xs = let e : 0 + n ≡ n = omega arith in rw e
take-add (suc m) n [] = let e : suc m + n ≡ suc (m + n) = omega arith in rw e (sym (take_zero n))
take-add (suc m) n (x ∷ xs) =
    let e : suc m + n ≡ suc (m + n) = omega arith in rw (e, take-add m n xs)

pub copied-le : (n : ℕ) (s : MockStream) → copied n s ≤ n
unfolding copied
copied-le n s = ground arith

pub read-le : (n : ℕ) (s : MockStream) → length (read_bytes (poll_read n s).0) ≤ n
unfolding poll_read
read-le n s = ground (arith, copied-le n s, length-take (copied n s) (drop s.read_pos s.read_buf))

pub read-delivers :
    (n : ℕ) (s : MockStream)
    → take (poll_read n s).1.read_pos (poll_read n s).1.read_buf
      ≡ take s.read_pos s.read_buf ++ read_bytes (poll_read n s).0
unfolding poll_read
read-delivers n s =
    ground
      (arith, append-nil (take s.read_pos s.read_buf), take-add s.read_pos (copied n s) s.read_buf)

-- The mock delivers its buffer piece by piece: a read copies the bytes at the position, at most as
-- many as asked for, and moves the position past them.
abbrev pub mock_transport : TransportLaws mock
mock_transport = record {
  delivered = λ s. take s.read_pos s.read_buf;
  read_fits = read-le;
  read_delivers = read-delivers;
}

write_takes :
    (bytes : Bytes) (r r' : MockStream) (n : ℕ)
    → poll_write bytes r ≡ (ok n, r')
    → r'.written_buf ≡ r.written_buf ++ take n bytes
unfolding poll_write
write_takes bytes r r' n e = ground (arith, take_all n bytes)

pub mock-WriterLaws : WriterLaws mock
unfolding write_all
mock-WriterLaws = record {
  written = λ s. s.written_buf;
  write_all_lem =
      λ bytes r r' e. ap (λ (p : IoResult (Unit {0}) × MockStream). p.1.written_buf) (sym e);
  write_lem = write_takes;
}
