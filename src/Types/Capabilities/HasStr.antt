-- ===== src/Types/Capabilities/HasStr.antt =====
-- What `has_str` of src/types/capabilities.rs answers, and when it panics.
use async_imap.Base.{
  ℕ, ◌<◌, ◌≤◌, Bool, true, false, ◌≡◌, ◌↔◌, ◌⊎◌, refl, subst, ◌||◌, List, [], ◌∷◌, ◌++◌, length,
  arith, ltb, leb,
}
use async_imap.Base.Text.{Bytes, codes, equal_iff, eq_ignore_ascii_case}
use async_imap.Error.{ok, panic}
use async_imap.Types.Capabilities.{
  Capability, imap4rev1, auth, atom, Capabilities, same, member, has, has_str,
}

-- For a text whose sixth byte goes on a character, `has_str` panics, whatever the server announced.
pub has_str_panics :
    (caps : Capabilities) (a b c d e f : ℕ) (rest : Bytes)
    → 128 ≤ f
    → f < 192
    → has_str caps (a ∷ b ∷ c ∷ d ∷ e ∷ f ∷ rest) ≡ panic
unfolding has_str eq_ignore_ascii_case
has_str_panics caps a b c d e f rest h k = ground arith

-- A capability in a list.
abbrev pub Holds : List Capability → Capability → Type 0
Holds [] c = ⊥
Holds (d ∷ ds) c = (d ≡ c) ⊎ Holds ds c

-- What a text asks for: `IMAP4rev1` in any case; a mechanism behind `AUTH=` in any case; and an atom by
-- any text that asks for neither.
abbrev pub Names : Capability → Bytes → Type 0
Names imap4rev1 s = eq_ignore_ascii_case s (codes "IMAP4rev1") ≡ true
Names (auth mechanism) s =
    (pre : Bytes) × (s ≡ pre ++ mechanism)
    × (eq_ignore_ascii_case pre (codes "AUTH=") ≡ true)
    × (0 < length mechanism)
Names (atom t) s =
    (t ≡ s)
    × (eq_ignore_ascii_case s (codes "IMAP4rev1") ≡ false)
    × ((pre mechanism : Bytes)
        → s ≡ pre ++ mechanism
        → 0 < length mechanism
        → eq_ignore_ascii_case pre (codes "AUTH=") ≡ false)

-- The sixth byte, if there is one, does not go on a character.
abbrev pub IsCuttable : Bytes → Type 0
IsCuttable (a ∷ b ∷ c ∷ d ∷ e ∷ f ∷ rest) = (ltb f 128 || leb 192 f) ≡ true
IsCuttable _ = Unit

same_iff : (c d : Capability) → (same c d ≡ true) ↔ (c ≡ d)
unfolding same
same_iff imap4rev1 imap4rev1 = ground arith
same_iff imap4rev1 (auth t) = ground arith
same_iff imap4rev1 (atom t) = ground arith
same_iff (auth s) imap4rev1 = ground arith
same_iff (auth s) (auth t) = ground (arith, equal_iff s t)
same_iff (auth s) (atom t) = ground arith
same_iff (atom s) imap4rev1 = ground arith
same_iff (atom s) (auth t) = ground arith
same_iff (atom s) (atom t) = ground (arith, equal_iff s t)

member-Holds : (c : Capability) (cs : List Capability) → (member c cs ≡ true) ↔ Holds cs c
unfolding member
member-Holds c [] = ground arith
member-Holds c (d ∷ ds) = ground (arith, same_iff d c, member-Holds c ds)

short_not_imap : (s : Bytes) → length s ≤ 5 → eq_ignore_ascii_case s (codes "IMAP4rev1") ≡ false
unfolding eq_ignore_ascii_case
short_not_imap [] h = refl
short_not_imap (a ∷ []) h = ground arith
short_not_imap (a ∷ b ∷ []) h = ground arith
short_not_imap (a ∷ b ∷ c ∷ []) h = ground arith
short_not_imap (a ∷ b ∷ c ∷ d ∷ []) h = ground arith
short_not_imap (a ∷ b ∷ c ∷ d ∷ e ∷ []) h = ground arith
short_not_imap (a ∷ b ∷ c ∷ d ∷ e ∷ f ∷ s) h = absurd (omega arith)

imap_named :
    (caps : Capabilities) (s : Bytes) → Names imap4rev1 s → has_str caps s ≡ ok (has caps imap4rev1)
unfolding has_str
imap_named caps s h = ground arith

auth_named :
    (caps : Capabilities) (pre mechanism : Bytes)
    → eq_ignore_ascii_case pre (codes "AUTH=") ≡ true
    → 0 < length mechanism
    → IsCuttable (pre ++ mechanism)
    → has_str caps (pre ++ mechanism) ≡ ok (has caps (auth mechanism))
unfolding has_str eq_ignore_ascii_case
auth_named caps pre [] h n k = absurd (omega arith)
auth_named caps (a ∷ b ∷ c ∷ d ∷ e ∷ []) (f ∷ rest) h n k = ground arith
auth_named caps [] (f ∷ rest) h n k = absurd (ground arith)
auth_named caps (a ∷ []) (f ∷ rest) h n k = absurd (ground arith)
auth_named caps (a ∷ b ∷ []) (f ∷ rest) h n k = absurd (ground arith)
auth_named caps (a ∷ b ∷ c ∷ []) (f ∷ rest) h n k = absurd (ground arith)
auth_named caps (a ∷ b ∷ c ∷ d ∷ []) (f ∷ rest) h n k = absurd (ground arith)
auth_named caps (a ∷ b ∷ c ∷ d ∷ e ∷ g ∷ pre) (f ∷ rest) h n k = absurd (ground arith)

short_named :
    (caps : Capabilities) (s : Bytes) → length s ≤ 5 → has_str caps s ≡ ok (has caps (atom s))
unfolding has_str
short_named caps s h = ground (arith, short_not_imap s h)

atom_named :
    (caps : Capabilities) (s : Bytes)
    → Names (atom s) s
    → IsCuttable s
    → has_str caps s ≡ ok (has caps (atom s))
unfolding has_str
atom_named caps (a ∷ b ∷ c ∷ d ∷ e ∷ f ∷ rest) (_, h, unlike) k =
    let other = unlike (a ∷ b ∷ c ∷ d ∷ e ∷ []) (f ∷ rest) refl (omega arith) in ground arith
atom_named caps [] h k = short_named caps _ (omega arith)
atom_named caps (a ∷ []) h k = short_named caps _ (omega arith)
atom_named caps (a ∷ b ∷ []) h k = short_named caps _ (omega arith)
atom_named caps (a ∷ b ∷ c ∷ []) h k = short_named caps _ (omega arith)
atom_named caps (a ∷ b ∷ c ∷ d ∷ []) h k = short_named caps _ (omega arith)
atom_named caps (a ∷ b ∷ c ∷ d ∷ e ∷ []) h k = short_named caps _ (omega arith)

named :
    (caps : Capabilities) (c : Capability) (s : Bytes)
    → Names c s
    → IsCuttable s
    → has_str caps s ≡ ok (has caps c)
named caps imap4rev1 s h k = imap_named caps s h
named caps (auth mechanism) s (pre, e, h, n) k =
    rw e (auth_named caps pre mechanism h n (subst IsCuttable e k))
named caps (atom t) s (e, h, unlike) k = rw e (atom_named caps s (refl, h, unlike) k)

-- Asked by a text that names a capability and is not cut inside a character, `has_str` does not panic,
-- and says yes exactly where the set holds that capability.
pub has_str_answers :
    (caps : Capabilities) (c : Capability) (s : Bytes)
    → Names c s
    → IsCuttable s
    → (answer : Bool) × (has_str caps s ≡ ok answer) × ((answer ≡ true) ↔ Holds caps.set c)
unfolding has
has_str_answers caps c s h k = (has caps c, named caps c s h k, member-Holds c caps.set)
