-- ===== src/Preview/Walk.antt =====
-- Going through the previews forwards and back.
use volum.Base.{
  leb, or_else, if_cases, length, get_elem?, IsDistinct, ℕ, zero, suc, ◌+◌, ◌-◌, ◌≤◌, ◌≡◌, refl,
  sym, ap, none, some, List, [], ◌∷◌, arith, index_of-get_elem?,
}
use volum.Entries.{FileEntry}
use volum.Preview.{paths_of, next_preview_entry, previous_preview_entry, preview_index}

get_elem?-paths_of :
    (entries : List FileEntry) (i : ℕ) (e : FileEntry)
    → get_elem? entries i ≡ some e
    → get_elem? (paths_of entries) i ≡ some e.path
get_elem?-paths_of [] i e h = absurd (cc)
get_elem?-paths_of (x ∷ xs) zero e h = ap (λ o. some (FileEntry.path (or_else o x))) h
get_elem?-paths_of (x ∷ xs) (suc i) e h = get_elem?-paths_of xs i e h

-- Among entries with distinct paths, each has the index at which it stands.
pub preview_index-get_elem? :
    (entries : List FileEntry) (i : ℕ) (e : FileEntry)
    → IsDistinct (paths_of entries)
    → get_elem? entries i ≡ some e
    → preview_index (some e) entries ≡ some i
unfolding preview_index
preview_index-get_elem? entries i e d h =
    index_of-get_elem? (paths_of entries) i e.path d (get_elem?-paths_of entries i e h)

get_elem?-none : {A : Type 0} → (xs : List A) (i : ℕ) → length xs ≤ i → get_elem? xs i ≡ none
get_elem?-none [] i h = refl
get_elem?-none (x ∷ xs) zero h = absurd (omega (arith, h))
get_elem?-none (x ∷ xs) (suc i) h = get_elem?-none xs i (omega (arith, h))

-- Among entries with distinct paths, the next preview of an entry is the one after it in the list,
-- the previous preview is the one before it, and at the ends of the list there is none.
next_preview_entry-get_elem? :
    (entries : List FileEntry) (i : ℕ) (e : FileEntry)
    → IsDistinct (paths_of entries)
    → get_elem? entries i ≡ some e
    → (next_preview_entry (some e) entries ≡ get_elem? entries (i + 1))
      × ((e' : FileEntry)
          → get_elem? entries (i + 1) ≡ some e'
          → previous_preview_entry (some e') entries ≡ some e)
unfolding next_preview_entry previous_preview_entry
next_preview_entry-get_elem? entries i e d h = (
  rw (preview_index-get_elem? entries i e d h) (
      if_cases (λ o. o ≡ get_elem? entries (i + 1)) (leb (length entries - 1) i)
        (λ p. sym (get_elem?-none entries (i + 1) (ground (arith, p)))) (λ p. refl)),
  λ e' k.
      rw (preview_index-get_elem? entries (i + 1) e' d k)
        (let next : i + 1 ≡ suc i = omega arith in rw next h),
)
