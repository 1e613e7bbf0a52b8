-- ===== src/Pill/Overlay.antt =====
-- A memory after bytes have been stored in it, for what is written to a pill by
-- embedded/Pill/pill_mgr.cpp.
use mathlib.Core.Path.{fun_ext}
use locket_api.Prelude.{
  ℕ, suc, ◌+◌, ◌≡◌, ◌<◌, refl, sym, ◌∙◌, ◌⊎◌, inl, inr, false, Bool-cases, List, [], ◌∷◌, ◌++◌,
  length, append-nil, ◌==◌, if◌then◌else◌, arith,
}

-- Memory behind the storing of bytes from an address on.
abbrev pub overlay : ℕ → List ℕ → (ℕ → ℕ) → ℕ → ℕ
overlay start [] f a = f a
overlay start (x ∷ xs) f a = if a == start then x else overlay (suc start) xs f a

overlay-local :
    (xs : List ℕ) (start : ℕ) (f g : ℕ → ℕ) (a : ℕ)
    → f a ≡ g a
    → overlay start xs f a ≡ overlay start xs g a
overlay-local [] start f g a e = e
overlay-local (x ∷ xs) start f g a e = rw (overlay-local xs (suc start) f g a e) refl

overlay_below :
    (xs : List ℕ) (start : ℕ) (f : ℕ → ℕ) (a : ℕ) → a < start → overlay start xs f a ≡ f a
overlay_below [] start f a h = refl
overlay_below (x ∷ xs) start f a h =
    let e : (a == start) ≡ false = ground arith in
    rw e (overlay_below xs (suc start) f a (omega arith))

pub overlay-append :
    (xs ys : List ℕ) (start end : ℕ) (f : ℕ → ℕ) (a : ℕ)
    → start + length xs ≡ end
    → overlay end ys (overlay start xs f) a ≡ overlay start (xs ++ ys) f a
overlay-append [] ys start end f a e = let e' : start ≡ end = omega arith in rw e' refl
overlay-append (x ∷ xs) ys start end f a e = elim (Bool-cases (a == start)) [
  | inl h ↦ let l : a < end = ground arith in rw h (overlay_below ys end _ a l ∙ rw h refl)
  | inr h ↦ rw h (
      overlay-local ys end _ (overlay (suc start) xs f) a (rw h refl)
      ∙ overlay-append xs ys (suc start) end f a (omega arith))
]

pub done_nothing : (bytes done left : List ℕ) → bytes ≡ [] → bytes ≡ done ++ left → done ≡ []
done_nothing bytes [] left e s = refl
done_nothing bytes (x ∷ done) left e s = absurd (ground (arith, e, s))

pub overlay_after :
    (page bytes done left : List ℕ) (mem_addr next : ℕ) (old mid : ℕ → ℕ)
    → mid ≡ overlay mem_addr page old
    → (bytes ≡ [] ⊎ (next ≡ mem_addr + length page))
    → bytes ≡ done ++ left
    → overlay next done mid ≡ overlay mem_addr (page ++ done) old
overlay_after page bytes done left mem_addr next old mid e (inl z) s =
    rw (done_nothing bytes done left z s, append-nil page) e
overlay_after page bytes done left mem_addr next old mid e (inr n) s =
    rw e (fun_ext λ a. overlay-append page done mem_addr next old a (sym n))
