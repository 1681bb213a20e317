-- ===== src/Prelude/Strs.antt =====
-- Go strings as lists of bytes: `==`, `strings.HasPrefix`, `strings.Contains`, `strings.Join`,
-- and maps from strings as association lists.
use Prim.Native.Nat.{ℕ}
use Prim.Native.Char.{code}
use Prim.Native.String.{String}
use mathlib.Core.Path.{◌≡◌, refl}
use mathlib.Core.Logic.{◌↔◌, ◌≢◌}
use mathlib.Core.Bool.{Bool, true, false, ◌&&◌, ◌||◌}
use mathlib.Core.Option.{Option, none, some}
use mathlib.Core.List.{List, [], ◌∷◌, ◌++◌}
use native.Mathlib.Omega.{arith}
use trello_openclaw_webhook.Prelude.Tests.{nat_eq, if◌then◌else◌}

abbrev pub Str : Type 0
Str = List ℕ

-- A literal's bytes; every literal here is ASCII.
abbrev pub bytes : String → Str
bytes String.[] = []
bytes (String.◌∷◌ c s) = code c ∷ bytes s

infix 50 ◌==◌
unfoldable pub ◌==◌ : Str → Str → Bool
[] == [] = true
(x ∷ xs) == (y ∷ ys) = nat_eq x y && xs == ys
_ == _ = false

pub eq_iff : (a b : Str) → ((a == b) ≡ true) ↔ (a ≡ b)
unfolding ◌==◌
eq_iff [] [] = ground arith
eq_iff [] (y ∷ ys) = ground arith
eq_iff (x ∷ xs) [] = ground arith
eq_iff (x ∷ xs) (y ∷ ys) = ground (arith, eq_iff xs ys)

pub eq_refl : (a : Str) → (a == a) ≡ true
eq_refl a = (eq_iff a a).1 refl

pub eq_false : (a b : Str) → a ≢ b → (a == b) ≡ false
eq_false a b h = ground (arith, eq_iff a b)

unfoldable pub has_prefix : Str → Str → Bool
has_prefix s [] = true
has_prefix [] (p ∷ ps) = false
has_prefix (c ∷ s) (p ∷ ps) = nat_eq c p && has_prefix s ps

unfoldable pub contains_str : Str → Str → Bool
unfolding has_prefix
contains_str [] sub = has_prefix [] sub
contains_str (c ∷ s) sub = has_prefix (c ∷ s) sub || contains_str s sub

unfoldable pub contains_byte : Str → ℕ → Bool
contains_byte [] b = false
contains_byte (c ∷ s) b = nat_eq c b || contains_byte s b

unfoldable pub join : List Str → Str → Str
join [] sep = []
join (x ∷ []) sep = x
join (x ∷ y ∷ ys) sep = x ++ (sep ++ join (y ∷ ys) sep)

-- Membership of a string in a slice.
unfoldable pub contains : List Str → Str → Bool
contains [] want = false
contains (x ∷ xs) want = x == want || contains xs want

-- A Go map: `m[k] = v`, `v, ok := m[k]`, `delete(m, k)`.
module _ {ℓ} {V : Type ℓ} where
  unfoldable pub lookup : Str → List (Str × V) → Option V
  lookup k [] = none
  lookup k ((j, v) ∷ m) = if j == k then some v else lookup k m

  unfoldable pub insert : Str → V → List (Str × V) → List (Str × V)
  insert k v [] = (k, v) ∷ []
  insert k v ((j, w) ∷ m) = if j == k then (j, v) ∷ m else (j, w) ∷ insert k v m

  unfoldable pub delete : Str → List (Str × V) → List (Str × V)
  delete k [] = []
  delete k ((j, w) ∷ m) = let rest = delete k m in if j == k then rest else (j, w) ∷ rest

  -- What a Go map holds at `want` after a write, or a deletion, at `key`.
  module _ (key want : Str) where
    pub lookup-insert :
        (value : V) (entries : List (Str × V))
        → lookup want (insert key value entries)
          ≡ (if key == want then some value else lookup want entries)
    unfolding lookup insert
    lookup-insert value [] = refl
    lookup-insert value ((at, old) ∷ rest) =
        ground (arith, lookup-insert value rest, eq_iff at key, eq_iff at want, eq_iff key want)

    pub lookup-delete :
        (entries : List (Str × V))
        → lookup want (delete key entries) ≡ (if key == want then none else lookup want entries)
    unfolding lookup delete
    lookup-delete [] = ground arith
    lookup-delete ((at, old) ∷ rest) =
        ground (arith, lookup-delete rest, eq_iff at key, eq_iff at want, eq_iff key want)
