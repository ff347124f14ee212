-- ===== src/Prelude/Places.antt =====
-- What a Boolean test of a list says of the places of the list.
use Prim.Native.Nat.{ℕ, zero, suc}
use mathlib.Core.Path.{◌≡◌, refl, ap}
use mathlib.Core.Logic.{◌≢◌}
use mathlib.Core.Bool.{Bool, true, false, not, ◌&&◌}
use mathlib.Core.Option.{some, some-injective}
use mathlib.Core.List.{List, [], ◌∷◌}
use native.Mathlib.Omega.{arith}
use openmls_dart.Prelude.Tests.{&&-eq-true}
use openmls_dart.Prelude.Lists.{get_elem?, any, all}
use openmls_dart.Prelude.ByteStrings.{Bytes, bytes_eq, bytes_eq_comm}

pub all_get :
    (p : Bytes → Bool) (ls : List Bytes) (i : ℕ) {l : Bytes}
    → all p ls ≡ true
    → get_elem? ls i ≡ some l
    → p l ≡ true
all_get p [] i a h = cc
all_get p (x ∷ xs) zero {l} a h = rw (← some-injective x l h) ((&&-eq-true _ _ a).0)
all_get p (x ∷ xs) (suc i) a h = all_get p xs i ((&&-eq-true (p x) _ a).1) h

any_get :
    (p : Bytes → Bool) (ls : List Bytes) (i : ℕ) {l : Bytes}
    → any p ls ≡ false
    → get_elem? ls i ≡ some l
    → p l ≡ false
any_get p [] i a h = absurd (cc h)
any_get p (x ∷ xs) zero {l} a h = rw (← some-injective x l h) (ground arith)
any_get p (x ∷ xs) (suc i) a h = any_get p xs i (ground arith) h

unfoldable pub distinct : List Bytes → Bool
distinct [] = true
distinct (l ∷ ls) = not (any (bytes_eq l) ls) && distinct ls

-- Two places of a list without repetitions hold different entries.
pub distinct_get :
    (ls : List Bytes) (i j : ℕ) {l m : Bytes}
    → distinct ls ≡ true
    → i ≢ j
    → get_elem? ls i ≡ some l
    → get_elem? ls j ≡ some m
    → bytes_eq l m ≡ false
unfolding distinct
distinct_get [] i j d ne hl hm = absurd (cc hl)
distinct_get (x ∷ xs) zero zero d ne hl hm = absurd (ne refl)
distinct_get (x ∷ xs) zero (suc j) {l} {m} d ne hl hm =
    rw (← some-injective x l hl) (any_get (bytes_eq x) xs j (ground arith) hm)
distinct_get (x ∷ xs) (suc i) zero {l} {m} d ne hl hm =
    rw (← some-injective x m hm, bytes_eq_comm l x) (any_get (bytes_eq x) xs i (ground arith) hl)
distinct_get (x ∷ xs) (suc i) (suc j) d ne hl hm =
    distinct_get xs i j ((&&-eq-true (not (any (bytes_eq x) xs)) _ d).1) (λ e. ne (ap suc e)) hl hm
