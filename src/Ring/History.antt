-- ===== src/Ring/History.antt =====
-- What a ring shows of the entries that were written to it.
use trello_openclaw_webhook.Prelude.{
  ℕ, suc, ◌+◌, ◌%◌, leb, ◌≤◌, ◌<◌, ◌≡◌, sym, ap, ◌∙◌, List, [], ◌∷◌, ◌++◌, arith, length, set, take,
  drop, if◌then◌else◌, length-append, length-set, length-drop, length-take, lt→ltb, le→ltb,
  append_assoc, append-nil,
}
use native.Mathlib.Decide.{dec_lt}
use mathlib.Core.Path.{subst}
use trello_openclaw_webhook.Ring.{
  Ring, new_ring, append_entry, entries_chronological, append_entries,
}
use trello_openclaw_webhook.Ring.Slices.{
  last, last_of_le, last-append, drop_eq, drop-one-rotated, rotate-set, rotate-set_last,
}

-- The head stays at 0 until the slice is full, and inside the slice from then on.
pub record IsRing {ℓ} {A : Type ℓ} (r : Ring A) : Type ℓ where
  pub positive : 0 < r.ring_size
  pub bounded : length r.entries ≤ r.ring_size
  pub filling : length r.entries < r.ring_size → r.head ≡ 0
  pub inside : r.head < r.ring_size

module _ {ℓ} {A : Type ℓ} where
  -- In a ring the view is a rotation, also while the slice fills.
  abbrev view : Ring A → List A
  view r = drop r.head r.entries ++ take r.head r.entries

  length-view : (r : Ring A) → length (view r) ≡ length r.entries
  length-view r =
      length-append (drop r.head r.entries) (take r.head r.entries)
      ∙ omega (arith, length-drop r.head r.entries, length-take r.head r.entries)

  rotated : (r : Ring A) → IsRing r → entries_chronological r ≡ view r
  unfolding entries_chronological
  rotated r v = elim (dec_lt (length r.entries) r.ring_size) [
    | yes h ↦
        let still : r.head ≡ 0 = v.filling h in
        rw (lt→ltb _ _ h)
          (sym (append-nil r.entries) ∙ ap (λ k. drop k r.entries ++ take k r.entries) (sym still))
    | no h ↦ rw (le→ltb (length r.entries) r.ring_size (omega arith))
  ]

  append_entry-IsRing : (r : Ring A) (e : A) → IsRing r → IsRing (append_entry r e)
  unfolding append_entry
  append_entry-IsRing r e v =
      ground (arith, length-append r.entries (e ∷ []), length-set r.entries r.head e)

  ring_size-append_entry : (r : Ring A) (e : A) → (append_entry r e).ring_size ≡ r.ring_size
  unfolding append_entry
  ring_size-append_entry r e = ground arith

  append_entry_filling :
      (r : Ring A) (e : A)
      → length r.entries < r.ring_size
      → append_entry r e ≡ record r { entries = r.entries ++ e ∷ [] }
  unfolding append_entry
  append_entry_filling r e h = rw (lt→ltb _ _ h)

  append_entry_full :
      (r : Ring A) (e : A)
      → r.ring_size ≤ length r.entries
      → append_entry r e
        ≡ record r { entries = set r.entries r.head e; head = (r.head + 1) % r.ring_size }
  unfolding append_entry
  append_entry_full r e h = rw (le→ltb (length r.entries) r.ring_size h)

  view_filling : (r : Ring A) → length r.entries < r.ring_size → entries_chronological r ≡ r.entries
  unfolding entries_chronological
  view_filling r h = rw (lt→ltb _ _ h)

  rotate-set_wrapping :
      (xs : List A) (h n : ℕ) (e : A)
      → h < n
      → length xs ≡ n
      → (let k = (h + 1) % n in drop k (set xs h e) ++ take k (set xs h e))
        ≡ drop (suc h) xs ++ (take h xs ++ e ∷ [])
  rotate-set_wrapping xs h n e lt full = elim (dec_lt (suc h) n) [
    | yes p ↦
        let k : (h + 1) % n ≡ suc h = grind arith in
        ap (λ k. drop k (set xs h e) ++ take k (set xs h e)) k ∙ rotate-set xs h e (omega arith)
    | no p ↦
        let last_index : h + 1 ≡ n = omega arith in
        let k : (h + 1) % n ≡ 0 = grind arith in
        ap (λ k. drop k (set xs h e) ++ take k (set xs h e)) k
        ∙ append-nil (set xs h e)
        ∙ rotate-set_last xs h e (omega arith)
  ]

  -- The entries after a write are the last `ring_size` of those before it with the new one behind.
  entries_chronological-append_entry :
      (r : Ring A) (e : A)
      → IsRing r
      → entries_chronological (append_entry r e)
        ≡ last r.ring_size (entries_chronological r ++ e ∷ [])
  entries_chronological-append_entry r e v = elim (dec_lt (length r.entries) r.ring_size) [
    | yes h ↦
        let stored : length (r.entries ++ e ∷ []) ≤ r.ring_size =
          omega (arith, length-append r.entries (e ∷ [])) in
        let grown : Ring A = record r { entries = r.entries ++ e ∷ [] } in
        let kept : IsRing grown =
          subst IsRing (append_entry_filling r e h) (append_entry-IsRing r e v) in
        ap entries_chronological (append_entry_filling r e h)
        ∙ rotated grown kept
        ∙ ap (λ k. drop k (r.entries ++ e ∷ []) ++ take k (r.entries ++ e ∷ [])) (v.filling h)
        ∙ append-nil (r.entries ++ e ∷ [])
        ∙ sym (last_of_le r.ring_size (r.entries ++ e ∷ []) stored)
        ∙ ap (λ l. last r.ring_size (l ++ e ∷ [])) (sym (view_filling r h))
    | no h ↦
        let full : length r.entries ≡ r.ring_size = omega arith in
        let at : r.head < length r.entries = omega arith in
        let turned : Ring A = record r {
          entries = set r.entries r.head e;
          head = (r.head + 1) % r.ring_size;
        } in
        let kept : IsRing turned =
          subst IsRing (append_entry_full r e (omega arith)) (append_entry-IsRing r e v) in
        ap entries_chronological (append_entry_full r e (omega arith))
        ∙ rotated turned kept
        ∙ rotate-set_wrapping r.entries r.head r.ring_size e v.inside full
        ∙ sym (drop-one-rotated r.entries r.head e at)
        ∙ drop_eq (view r ++ e ∷ []) 1 _
            (omega (arith, length-view r, length-append (view r) (e ∷ [])))
        ∙ ap (λ l. last r.ring_size (l ++ e ∷ [])) (sym (rotated r v))
  ]

  append_entries-last :
      (r : Ring A) (seen es : List A)
      → IsRing r
      → entries_chronological r ≡ last r.ring_size seen
      → entries_chronological (append_entries r es) ≡ last r.ring_size (seen ++ es)
  unfolding append_entries
  append_entries-last r seen [] v same = same ∙ ap (λ l. last r.ring_size l) (sym (append-nil seen))
  append_entries-last r seen (e ∷ es) v same =
      let one : entries_chronological (append_entry r e) ≡ last r.ring_size (seen ++ e ∷ []) =
        entries_chronological-append_entry r e v
        ∙ ap (λ l. last r.ring_size (l ++ e ∷ [])) same
        ∙ last-append r.ring_size seen e in
      let size = ring_size-append_entry r e in
      append_entries-last (append_entry r e) (seen ++ e ∷ []) es (append_entry-IsRing r e v)
        (one ∙ ap (λ n. last n (seen ++ e ∷ [])) (sym size))
      ∙ ap (λ n. last n ((seen ++ e ∷ []) ++ es)) size
      ∙ ap (λ l. last r.ring_size l) (append_assoc seen (e ∷ []) es)

  new_ring-IsRing : (default n : ℕ) → 0 < default → IsRing {A = A} (new_ring default n)
  unfolding new_ring
  new_ring-IsRing default n h = ground arith

  -- After any sequence of writes to a new ring, the chronological view is the last `ring_size` of
  -- the written entries, in the order of writing.
  pub entries_chronological-append_entries :
      (default n : ℕ) (es : List A)
      → 0 < default
      → entries_chronological (append_entries (new_ring default n) es)
        ≡ last (if leb n 0 then default else n) es
  unfolding new_ring
  entries_chronological-append_entries default n es h =
      append_entries-last (new_ring default n) [] es (new_ring-IsRing default n h) (
        view_filling (new_ring default n) (new_ring-IsRing default n h).positive
        ∙ sym (last_of_le (new_ring {A = A} default n).ring_size [] (omega arith)))
