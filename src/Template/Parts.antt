-- ===== src/Template/Parts.antt =====
-- The grammar of templates: a source as the single bytes and the references that it is made of.
use trello_openclaw_webhook.Prelude.{
  ℕ, zero, suc, ◌≤◌, ap, sym, ◌∙◌, length-append, ◌+◌, ◌++◌, ◌≡◌, refl, Bool, false, ◌&&◌, none,
  some, List, [], ◌∷◌, Str, bytes, length, drop, nat_eq, has_prefix, contains_str, arith,
  Bool-cases, Option-cases, inl, inr,
}
use trello_openclaw_webhook.Template.{find_close, reference_at}

pub data Part : Type 0 where
  byte : ℕ → Part
  reference : (raw_ref : Str) → Part

abbrev pub print : List Part → Str
print [] = []
print (byte b ∷ parts) = b ∷ print parts
print (reference raw_ref ∷ parts) = b'{' ∷ b'{' ∷ (raw_ref ++ (b'}' ∷ b'}' ∷ print parts))

-- `{{` with a `}}` somewhere behind it.
abbrev pub opens : Str → Bool
opens s = has_prefix s (bytes "{{") && contains_str (drop 2 s) (bytes "}}")

-- A byte is literal where no reference opens, and the first `}}` ends a reference.
abbrev pub IsTemplate : List Part → Type 0
IsTemplate [] = Unit
IsTemplate (byte b ∷ parts) = (opens (b ∷ print parts) ≡ false) × IsTemplate parts
IsTemplate (reference raw_ref ∷ parts) =
    (contains_str (raw_ref ++ bytes "}") (bytes "}}") ≡ false) × IsTemplate parts

-- Text that ends at a `}}`: the search stops there.
pub find_close-first :
    (raw_ref rest : Str)
    → contains_str (raw_ref ++ bytes "}") (bytes "}}") ≡ false
    → find_close (raw_ref ++ (b'}' ∷ b'}' ∷ rest)) ≡ some (raw_ref, rest)
unfolding find_close contains_str has_prefix
find_close-first [] rest h = refl
find_close-first (a ∷ []) rest h = ground (arith, find_close-first [] rest)
find_close-first (a ∷ b ∷ raw_ref) rest h = ground (arith, find_close-first (b ∷ raw_ref) rest)

pub find_close-none : (s : Str) → contains_str s (bytes "}}") ≡ false → find_close s ≡ none
unfolding find_close contains_str has_prefix
find_close-none [] h = refl
find_close-none (a ∷ []) h = refl
find_close-none (a ∷ b ∷ s) h = ground (arith, find_close-none (b ∷ s))

pub reference_at-none : (s : Str) → opens s ≡ false → reference_at s ≡ none
unfolding reference_at has_prefix
reference_at-none [] h = refl
reference_at-none (a ∷ []) h = refl
reference_at-none (a ∷ b ∷ s) h = ground (arith, find_close-none s)

-- Where the search stops.
pub find_close_sound :
    (s raw_ref rest : Str)
    → find_close s ≡ some (raw_ref, rest)
    → (s ≡ raw_ref ++ (b'}' ∷ b'}' ∷ rest))
      × (contains_str (raw_ref ++ bytes "}") (bytes "}}") ≡ false)
unfolding find_close contains_str has_prefix
find_close_sound [] raw_ref rest h = absurd (ground arith)
find_close_sound (a ∷ []) raw_ref rest h = absurd (ground arith)
find_close_sound (a ∷ b ∷ s) raw_ref rest h = elim (Bool-cases (nat_eq a b'}' && nat_eq b b'}')) [
  | inl stops ↦ ground arith
  | inr goes_on ↦ elim (Option-cases (find_close (b ∷ s))) [
    | inl missing ↦ absurd (ground arith)
    | inr (found, at) ↦ ground (arith, find_close_sound (b ∷ s) found.0 found.1)
  ]
]

find_close_complete : (s : Str) → find_close s ≡ none → contains_str s (bytes "}}") ≡ false
unfolding find_close contains_str has_prefix
find_close_complete [] h = refl
find_close_complete (a ∷ []) h = ground arith
find_close_complete (a ∷ b ∷ s) h =
    ground (arith, find_close_complete (b ∷ s), Option-cases (find_close (b ∷ s)))

opens-reference_at : (s : Str) → reference_at s ≡ none → opens s ≡ false
unfolding reference_at has_prefix
opens-reference_at [] h = refl
opens-reference_at (a ∷ []) h = ground arith
opens-reference_at (a ∷ b ∷ s) h = ground (arith, find_close_complete s)

reference_at_sound :
    (s raw_ref rest : Str)
    → reference_at s ≡ some (raw_ref, rest)
    → (s ≡ b'{' ∷ b'{' ∷ (raw_ref ++ (b'}' ∷ b'}' ∷ rest)))
      × (contains_str (raw_ref ++ bytes "}") (bytes "}}") ≡ false)
unfolding reference_at
reference_at_sound [] raw_ref rest h = absurd (ground arith)
reference_at_sound (a ∷ []) raw_ref rest h = absurd (ground arith)
reference_at_sound (a ∷ b ∷ s) raw_ref rest h = ground (arith, find_close_sound s raw_ref rest)

-- Every source is the printing of a template.
abbrev pub HasParts : Str → Type 0
HasParts s = (parts : List Part) × (print parts ≡ s) × IsTemplate parts

literal_first : (b : ℕ) (s : Str) → reference_at (b ∷ s) ≡ none → HasParts s → HasParts (b ∷ s)
literal_first b s literal (parts, printed, template) = (
  byte b ∷ parts,
  ap (λ t. b ∷ t) printed,
  (rw printed (opens-reference_at (b ∷ s) literal), template),
)

reference_first :
    (n b : ℕ) (s raw_ref rest : Str)
    → length (b ∷ s) ≤ suc n
    → reference_at (b ∷ s) ≡ some (raw_ref, rest)
    → (length rest ≤ n → HasParts rest)
    → HasParts (b ∷ s)
reference_first n b s raw_ref rest bound at further =
    let found : (b ∷ s ≡ b'{' ∷ b'{' ∷ (raw_ref ++ (b'}' ∷ b'}' ∷ rest)))
        × (contains_str (raw_ref ++ bytes "}") (bytes "}}") ≡ false) =
      reference_at_sound (b ∷ s) raw_ref rest at in
    let size : length (b ∷ s) ≡ length (b'{' ∷ b'{' ∷ (raw_ref ++ (b'}' ∷ b'}' ∷ rest))) =
      ap length found.0 in
    let split : length (raw_ref ++ (b'}' ∷ b'}' ∷ rest))
        ≡ length raw_ref + length (b'}' ∷ b'}' ∷ rest) =
      length-append raw_ref (b'}' ∷ b'}' ∷ rest) in
    let later : HasParts rest = further (omega arith) in
    (
      reference raw_ref ∷ later.0,
      ap (λ t. b'{' ∷ b'{' ∷ (raw_ref ++ (b'}' ∷ b'}' ∷ t))) later.1 ∙ sym found.0,
      (found.1, later.2),
    )

parts_within : (n : ℕ) (s : Str) → length s ≤ n → HasParts s
parts_within n [] bound = ([], refl, tt)
parts_within zero (b ∷ s) bound = absurd (omega arith)
parts_within (suc n) (b ∷ s) bound = elim (Option-cases (reference_at (b ∷ s))) [
  | inl literal ↦
      let rest : HasParts s = parts_within n s (omega arith) in literal_first b s literal rest
  | inr (found, at) ↦
      reference_first n b s found.0 found.1 bound at (λ shorter. parts_within n found.1 shorter)
]

pub parts_of : (s : Str) → HasParts s
parts_of s = parts_within (length s) s (omega arith)
