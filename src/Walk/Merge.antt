-- ===== src/Walk/Merge.antt =====
-- The outputs of the workers together, and the output that they are merged into.
use scap.Base.{
  ◌||◌, ℕ, suc, ◌+◌, ◌^◌, ◌<◌, ◌≡◌, refl, ap, ◌∙◌, some, List, [], ◌∷◌, ◌++◌, arith, length,
  length-append,
}
use scap.Base.Bytes.{Bytes}
use scap.Walk.Arena.{iter, merge, merged, merge-some, merge-iter, slices}
use scap.Walk.Sys.{Ctx, Out, new_out, merge_out}
use scap.Walk.Workers.{idle, merge_all}
use scap.Base.Sort.{sum}
use scap.Walk.Ledger.{IsSound, sum-append}

-- What the outputs list together.
abbrev pub listed : (Bytes → ℕ) → List Out → ℕ
listed f [] = 0
listed f (out ∷ outs) = sum f (iter out.arena) + listed f outs

abbrev pub AllSound : List Out → Type 0
AllSound [] = Unit
AllSound (out ∷ outs) = IsSound out × AllSound outs

pub listed-append :
    (f : Bytes → ℕ) (xs ys : List Out) → listed f (xs ++ ys) ≡ listed f xs + listed f ys
listed-append f [] ys = omega arith
listed-append f (x ∷ xs) ys = omega (arith, listed-append f xs ys)

pub AllSound-split : (xs ys : List Out) → AllSound (xs ++ ys) → AllSound xs × AllSound ys
AllSound-split [] ys h = (tt, h)
AllSound-split (x ∷ xs) ys h = let (front, back) = AllSound-split xs ys h.1 in ((h.0, front), back)

pub AllSound-append : (xs ys : List Out) → AllSound xs → AllSound ys → AllSound (xs ++ ys)
AllSound-append [] ys h k = k
AllSound-append (x ∷ xs) ys h k = (h.0, AllSound-append xs ys h.1 k)

-- The merged output lists what the parts list.
pub merge_all-listed :
    (out : Out) (parts : List Out)
    → IsSound out
    → AllSound parts
    → sum length (iter out.arena) + listed length parts < 2 ^ 32
    → (whole : Out) × (merge_all out parts ≡ some whole)
      × ((f : Bytes → ℕ) → sum f (iter whole.arena) ≡ sum f (iter out.arena) + listed f parts)
unfolding merge_all merge_out
merge_all-listed out [] h k room = (out, refl, λ f. omega arith)
merge_all-listed out (part ∷ parts) h k room =
    let e : merge out.arena part.arena ≡ some (merged out.arena part.arena) =
      merge-some out.arena part.arena (omega (arith, room, h.1, k.0.1)) in
    let (both, within) = merge-iter out.arena part.arena h.0 k.0.0 e in
    let sums : (f : Bytes → ℕ)
        → sum f (iter (merged out.arena part.arena))
          ≡ sum f (iter out.arena) + sum f (iter part.arena) =
      λ f. ap (sum f) both ∙ sum-append f (iter out.arena) (iter part.arena) in
    let joined : Out = record out {
      arena = merged out.arena part.arena;
      dirs_read = out.dirs_read + part.dirs_read;
      excluded = out.excluded + part.excluded;
      records = out.records ++ part.records;
      incomplete = out.incomplete || part.incomplete;
    } in
    let sound : IsSound joined = (
      within,
      omega (arith, length-append out.arena.bytes part.arena.bytes, h.1, k.0.1, sums length),
    ) in
    let (whole, f, same) =
      merge_all-listed joined parts sound k.1 (omega (arith, room, sums length)) in
    (whole, rw e f, λ g. omega (arith, same g, sums g))

module _ (ctx : Ctx) where
  pub idle-AllSound : (n : ℕ) → AllSound (idle n ctx)
  unfolding idle new_out iter slices
  idle-AllSound ℕ.zero = tt
  idle-AllSound (suc n) = ((tt, refl), idle-AllSound n)

  pub idle-listed : (f : Bytes → ℕ) (n : ℕ) → listed f (idle n ctx) ≡ 0
  unfolding idle new_out iter slices
  idle-listed f ℕ.zero = refl
  idle-listed f (suc n) = omega (arith, idle-listed f n)
