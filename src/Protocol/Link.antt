-- ===== src/Protocol/Link.antt =====
-- A link, from which bytes are read: src/Link.hh over a socket or an XRootD link. Its calls of the
-- system are not part of this repository, so a link is an argument with documented laws: a receive does
-- not block and gives no more bytes than were asked for, in the order in which the other end sent them.
use mathlib.Core.List.{append_assoc}
use quarkdb.Base.{
  ℕ, zero, suc, ◌≤◌, ◌≡◌, refl, ◌∙◌, sym, ap, inl, inr, Bool-cases, leb, leb→le, if◌then◌else◌,
  List, [], ◌∷◌, ◌++◌, Bytes, length, take, drop, take-drop, take_all, arith,
}

-- What Link::Recv returns: `failed n` is the negative status -(n + 1), and no bytes is a slow link.
pub data Received : Type 0 where
  failed : ℕ → Received
  bytes : Bytes → Received

pub record Link (L : Type 0) : Type 0 where
  pub recv : L → ℕ → Received × L
  -- What the other end sends from here on, and has not been received.
  pub unread : L → Bytes
  pub unread-bytes :
      (l after : L) (blen : ℕ) (xs : Bytes)
      → recv l blen ≡ (bytes xs, after)
      → (unread l ≡ xs ++ unread after) × (length xs ≤ blen)
  pub unread-failed :
      (l after : L) (blen n : ℕ) → recv l blen ≡ (failed n, after) → unread l ≡ unread after

-- A link that meets the laws: the pieces and the errors that a receive will meet, in order.
abbrev pub pieces_unread : List Received → Bytes
pieces_unread [] = []
pieces_unread (failed n ∷ rest) = pieces_unread rest
pieces_unread (bytes xs ∷ rest) = xs ++ pieces_unread rest

abbrev pub pieces_recv : List Received → ℕ → Received × List Received
pieces_recv [] blen = (bytes [], [])
pieces_recv (failed n ∷ rest) blen = (failed n, rest)
pieces_recv (bytes xs ∷ rest) blen =
    (bytes (take blen xs), if leb (length xs) blen then rest else bytes (drop blen xs) ∷ rest)

length-take-le : (n : ℕ) (xs : Bytes) → length (take n xs) ≤ n
length-take-le zero xs = omega arith
length-take-le (suc n) [] = omega arith
length-take-le (suc n) (x ∷ xs) = omega (arith, length-take-le n xs)

unread-take :
    (n : ℕ) (xs : Bytes) (rest : List Received)
    → xs ++ pieces_unread rest
      ≡ take n xs ++ pieces_unread (if leb (length xs) n then rest else bytes (drop n xs) ∷ rest)
unread-take n xs rest = elim (Bool-cases (leb (length xs) n)) [
  | inl all ↦ rw (all, take_all n xs (leb→le (length xs) n all)) refl
  | inr some_left ↦ rw some_left (
      ap (λ ys. ys ++ pieces_unread rest) (sym (take-drop n xs))
      ∙ append_assoc (take n xs) (drop n xs) (pieces_unread rest))
]

bytes-inj :
    {xs ys : Bytes} {l k : List Received}
    → ◌≡◌ {A = Received × List Received} (bytes xs, l) (bytes ys, k)
    → (xs ≡ ys) × (l ≡ k)
bytes-inj e = (cc, cc)

pub received-unread :
    (l after : List Received) (blen : ℕ) (xs : Bytes)
    → pieces_recv l blen ≡ (bytes xs, after)
    → (pieces_unread l ≡ xs ++ pieces_unread after) × (length xs ≤ blen)
received-unread [] after blen xs e =
    let (none_there, same) = bytes-inj e in
    (
      ap (λ ys. ys ++ pieces_unread []) none_there ∙ ap (λ k. xs ++ pieces_unread k) same,
      omega (arith, ap length none_there),
    )
received-unread (failed n ∷ rest) after blen xs e = absurd (unlike e)
  where
    unlike : ◌≡◌ {A = Received × List Received} (failed n, rest) (bytes xs, after) → ⊥
    unlike z = cc
received-unread (bytes ys ∷ rest) after blen xs e =
    let (taken, same) = bytes-inj e in
    (
      unread-take blen ys rest
          ∙ ap (λ zs. zs ++ pieces_unread (pieces_recv (bytes ys ∷ rest) blen).1) taken
          ∙ ap (λ k. xs ++ pieces_unread k) same,
      omega (arith, ap length taken, length-take-le blen ys),
    )

pub failed-unread :
    (l after : List Received) (blen n : ℕ)
    → pieces_recv l blen ≡ (failed n, after)
    → pieces_unread l ≡ pieces_unread after
failed-unread [] after blen n e = absurd (unlike e)
  where
    unlike : ◌≡◌ {A = Received × List Received} (bytes [], []) (failed n, after) → ⊥
    unlike z = cc
failed-unread (failed m ∷ rest) after blen n e = ap pieces_unread (second e)
  where
    second : ◌≡◌ {A = Received × List Received} (failed m, rest) (failed n, after) → rest ≡ after
    second z = cc
failed-unread (bytes ys ∷ rest) after blen n e = absurd (unlike e)
  where
    unlike :
        {xs : Bytes} {k : List Received}
        → ◌≡◌ {A = Received × List Received} (bytes xs, k) (failed n, after)
        → ⊥
    unlike z = cc

instance abbrev pub pieces : Link (List Received)
pieces = record {
  recv = pieces_recv;
  unread = pieces_unread;
  unread-bytes = received-unread;
  unread-failed = failed-unread;
}
