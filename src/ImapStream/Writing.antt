-- ===== src/ImapStream/Writing.antt =====
-- What `encode` of src/imap_stream.rs puts on the wire.
use async_imap.Base.{
  ℕ, ◌≡◌, refl, sym, ap, ◌∙◌, [], ◌++◌, append_assoc, append-nil, Option, none, some, take,
}
use async_imap.Base.Text.{Bytes, codes}
use async_imap.Error.{IoResult, ok, err}
use async_imap.Proto.{RequestId}
use async_imap.Types.Wire.{Request}
use async_imap.ImapStream.{
  Transport, ImapStream, encode, encode_inner, write_tag, and_then, ignore_count,
}

-- What the transport promises of a write that succeeds; `written` is the record of all bytes that it
-- has taken. `write` takes the first ones of the bytes, as many as it returns, which may be none.
pub record WriterLaws {R : Type 0} (io : Transport R) : Type 0 where
  pub written : R → Bytes
  pub write_all_lem :
      (bytes : Bytes) (r r' : R)
      → io.write_all bytes r ≡ (ok tt, r')
      → written r' ≡ written r ++ bytes
  pub write_lem :
      (bytes : Bytes) (r r' : R) (n : ℕ)
      → io.write bytes r ≡ (ok n, r')
      → written r' ≡ written r ++ take n bytes

-- The line of a request: the tag and a gap, if there is a tag, the body, and the end of the line.
abbrev pub tag_part : Bytes → Option RequestId → Bytes
tag_part gap none = []
tag_part gap (some tag) = tag ++ gap

abbrev pub line : Bytes → Request → Bytes
line gap msg = tag_part gap msg.tag ++ (msg.body ++ codes "\r\n")

-- The line as it is meant, with a space between the tag and the command.
abbrev pub wire : Request → Bytes
wire = line (codes " ")

-- What `write` has returned for the space behind the tag, if the request has one.
abbrev pub Counted : {R : Type 0} → Transport R → Option RequestId → R → ℕ → Type 0
Counted io none r n = Unit
Counted {R} io (some tag) r n =
    (r' : R) × (r'' : R) × (io.write_all tag r ≡ (ok tt, r'))
    × (io.write (codes " ") r' ≡ (ok n, r''))

module _ {R : Type 0} {io : Transport R} (laws : WriterLaws io) where
  open laws use {written, write_all_lem, write_lem}

  -- `bytes` is written if the action `m` on `r` succeeds.
  abbrev Writes : R → Bytes → IoResult (Unit {0}) × R → Type 0
  Writes r bytes (ok _, r') = written r' ≡ written r ++ bytes
  Writes r bytes (err e, r') = Unit

  Writes-and_then :
      (r : R) (xs ys : Bytes) (m : IoResult (Unit {0}) × R) (next : R → IoResult (Unit {0}) × R)
      → Writes r xs m
      → ((r' : R) → Writes r' ys (next r'))
      → Writes r (xs ++ ys) (and_then io m next)
  unfolding and_then
  Writes-and_then r xs ys (err e, r') next w n = tt
  Writes-and_then r xs ys (ok _, r') next w n = go (next r') (n r')
    where
      go : (k : IoResult (Unit {0}) × R) → Writes r' ys k → Writes r (xs ++ ys) k
      go (err e, r'') h = tt
      go (ok _, r'') h = h ∙ rw w (append_assoc (written r) xs ys)

  Writes-write_all : (r : R) (bytes : Bytes) → Writes r bytes (io.write_all bytes r)
  Writes-write_all r bytes = go (io.write_all bytes r) refl
    where
      go : (k : IoResult (Unit {0}) × R) → io.write_all bytes r ≡ k → Writes r bytes k
      go (err e, r') h = tt
      go (ok _, r') h = write_all_lem bytes r r' h

  Writes-body :
      (r : R) (body : Bytes)
      → Writes r
          (body ++ codes "\r\n")
          (and_then io (io.write_all body r) (io.write_all (codes "\r\n")))
  Writes-body r body =
      Writes-and_then r body (codes "\r\n") _ _ (Writes-write_all r body)
        (λ r'. Writes-write_all r' (codes "\r\n"))

  -- A run from `r` that has written the tag and the part of the space that was taken, and then `rest`,
  -- if it has not failed.
  abbrev Spaced : Option RequestId → R → Bytes → IoResult (Unit {0}) × R → Type 0
  Spaced tag r rest (ok _, r') =
      (n : ℕ) × Counted io tag r n
      × (written r' ≡ written r ++ (tag_part (take n (codes " ")) tag ++ rest))
  Spaced tag r rest (err e, r') = Unit

  Spaced-write_tag : (r : R) (tag : Option RequestId) → Spaced tag r [] (write_tag io tag r)
  unfolding write_tag ignore_count and_then
  Spaced-write_tag r none = (0, tt, sym (append-nil (written r)))
  Spaced-write_tag r (some tag) = tagged (io.write_all tag r) refl
    where
      counted :
          (r' : R) (k : IoResult ℕ × R)
          → io.write_all tag r ≡ (ok tt, r')
          → io.write (codes " ") r' ≡ k
          → Spaced (some tag) r [] (ignore_count io k)
      counted r' (err e, r'') h g = tt
      counted r' (ok n, r'') h g = (
        n,
        (r', r'', h, g),
        write_lem (codes " ") r' r'' n g
            ∙ rw (write_all_lem tag r r' h) (rw (append_assoc, append_assoc) (rw append-nil)),
      )

      tagged :
          (k : IoResult (Unit {0}) × R)
          → io.write_all tag r ≡ k
          → Spaced (some tag) r [] (and_then io k (λ r'. ignore_count io (io.write (codes " ") r')))
      tagged (err e, r') h = tt
      tagged (ok _, r') h = counted r' (io.write (codes " ") r') h refl

  Spaced-and_then :
      (tag : Option RequestId) (r : R) (rest : Bytes) (k : IoResult (Unit {0}) × R)
      (next : R → IoResult (Unit {0}) × R)
      → Spaced tag r [] k
      → ((r' : R) → Writes r' rest (next r'))
      → Spaced tag r rest (and_then io k next)
  unfolding and_then
  Spaced-and_then tag r rest (err e, r') next h w = tt
  Spaced-and_then tag r rest (ok _, r') next (n, c, h) w = go (next r') (w r')
    where
      go : (k : IoResult (Unit {0}) × R) → Writes r' rest k → Spaced tag r rest k
      go (err e, r'') g = tt
      go (ok _, r'') g = (n, c, g ∙ rw h (rw (append_assoc, append-nil)))

  -- On a transport that keeps the promises of `Write`, a request that is written without an error is on
  -- the wire, behind what was there: its tag and as many bytes of the space as `write` has returned for
  -- it, if there is a tag, its body, and the end of the line. A transport that returns 0 for the space,
  -- as it may, is not asked again: the tag and the body are then on the wire with nothing between them.
  pub encode_lem :
      (msg : Request) (s s' : ImapStream R)
      → encode io msg s ≡ (ok tt, s')
      → (n : ℕ) × Counted io msg.tag s.inner n
        × (written s'.inner ≡ written s.inner ++ line (take n (codes " ")) msg)
  unfolding encode encode_inner
  encode_lem msg s s' h =
      go (encode_inner io msg s.inner)
        (Spaced-and_then msg.tag s.inner (msg.body ++ codes "\r\n") _ _
          (Spaced-write_tag s.inner msg.tag) (λ r'. Writes-body r' msg.body))
        h
    where
      go :
          (k : IoResult (Unit {0}) × R)
          → Spaced msg.tag s.inner (msg.body ++ codes "\r\n") k
          → ◌≡◌ {A = IoResult (Unit {0}) × ImapStream R} (k.0, record s { inner = k.1 }) (ok tt, s')
          → (n : ℕ) × Counted io msg.tag s.inner n
            × (written s'.inner ≡ written s.inner ++ line (take n (codes " ")) msg)
      go (err e, r') w k = cc
      go (ok _, r') (n, c, w) k =
          (n, c, ap (λ (p : IoResult (Unit {0}) × ImapStream R). written p.1.inner) (sym k) ∙ w)
