-- ===== src/Paging/Walk.antt =====
-- Walking the pages forward, against the rows that the server holds.
use campus_compile.Base.{
  ℕ, zero, suc, ◌+◌, ◌-◌, ◌*◌, ◌≤◌, ◌<◌, ◌≡◌, refl, sym, ap, ◌∙◌, true, false, Option, none, some,
  List, [], ◌++◌, arith, ◌==◌, length, take, drop, take-append-drop, length-take, length-drop,
  drop-nil_of_le, drop-add, Bool-cases, inl, inr, if◌then◌else◌, min, ◌⊎◌,
}
use mathlib.Core.List.{append-nil}
use campus_compile.Paging.{Pager, fresh, receive, next}

module _ {ℓ} {A : Type ℓ} (limit : ℕ) (all : List A) where
  -- What `?limit=…&offset=…` answers over a fixed table.
  abbrev pub serve : ℕ → List A
  serve offset = take limit (drop offset all)

  -- The pager after the page at `offset` has arrived.
  abbrev pub page_at : ℕ → Pager A
  page_at offset = receive limit offset (some (serve offset)) fresh

  -- The rows shown while the user presses "Next" until it does nothing, page after page; `none`
  -- when the presses granted are not enough.
  pub browse : ℕ → ℕ → Option (List A)
  browse zero offset = none
  browse (suc presses) offset = elim (next limit (page_at offset)) [
    | none ↦ some (page_at offset).rows
    | some offset' ↦ elim (browse presses offset') [
      | none ↦ none
      | some rest ↦ some ((page_at offset).rows ++ rest)
    ]
  ]

  pub length-serve : (offset : ℕ) → length (serve offset) ≡ min limit (length all - offset)
  length-serve offset = omega (arith, length-take limit (drop offset all), length-drop offset all)

  serve-append-drop : (offset : ℕ) → serve offset ++ drop (offset + limit) all ≡ drop offset all
  serve-append-drop offset =
      rw (drop-add offset limit all) (take-append-drop limit (drop offset all))

  serve_short : (offset : ℕ) → length all < offset + limit → serve offset ≡ drop offset all
  serve_short offset h =
      let e : drop (offset + limit) all ≡ [] = drop-nil_of_le (offset + limit) all (omega arith) in
      sym (append-nil (serve offset)) ∙ (rw (← e) (serve-append-drop offset))

  next-page_at :
      (offset : ℕ)
      → next limit (page_at offset)
        ≡ (if length (serve offset) == limit then some (offset + limit) else none)
  unfolding next receive
  next-page_at offset = refl

  full_page :
      (offset : ℕ)
      → (length (serve offset) == limit) ≡ true
      → offset + limit ≤ length all ⊎ (limit ≡ 0)
  full_page offset full = ground (arith, length-serve offset)

  part_page : (offset : ℕ) → (length (serve offset) == limit) ≡ false → length all < offset + limit
  part_page offset part = ground (arith, length-serve offset)

  -- What is left of the table is shown, when the presses suffice.
  browse-eq-drop :
      (presses offset : ℕ)
      → 0 < limit
      → length all < offset + suc presses * limit
      → browse (suc presses) offset ≡ some (drop offset all)
  unfolding browse receive
  browse-eq-drop zero offset pos enough = elim (Bool-cases (length (serve offset) == limit)) [
    | inl full ↦ absurd (omega (arith, full_page offset full))
    | inr part ↦
        rw (next-page_at offset, part, browse)
          (ap some (serve_short offset (part_page offset part)))
  ]
  browse-eq-drop (suc presses) offset pos enough =
      elim (Bool-cases (length (serve offset) == limit)) [
        | inl full ↦
            rw
              (
                next-page_at offset,
                full,
                browse-eq-drop presses (offset + limit) pos (omega arith),
                browse,
              )
              (ap some (serve-append-drop offset))
        | inr part ↦
            rw (next-page_at offset, part, browse)
              (ap some (serve_short offset (part_page offset part)))
      ]

  -- Pressing "Next" from the first page until it does nothing shows every row of a fixed table
  -- once and in order, for any positive page size, once the presses times the page size exceed the
  -- table's length.
  pub browse-all :
      (presses : ℕ)
      → 0 < limit
      → length all < suc presses * limit
      → browse (suc presses) 0 ≡ some all
  browse-all presses pos enough = browse-eq-drop presses 0 pos (omega arith)
