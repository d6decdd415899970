-- ===== src/Api/Pagination/Pages.antt =====
-- A client that follows the cursors sees each item once.
use s.Common.{
  ℕ, zero, suc, ◌+◌, ◌≤◌, ◌<◌, ◌≡◌, refl, sym, ap, ◌∙◌, subst, inl, inr, true, false, List, [], ◌∷◌,
  ◌++◌, Option, none, some, Text, ltb, length, take, drop, All, arith, Bool-cases, length-drop,
  ltb→lt,
}
use s.Common.Utf8.{is_utf8}
use s.Common.Chars.{text_le}
use s.Api.Pagination.{
  Base64, PaginatedResponse, decode_cursor, skip_to, filtered, last_key, page_of, from_sorted,
}

text_le_refl : (xs : Text) → text_le xs xs ≡ true
unfolding text_le
text_le_refl [] = refl
text_le_refl (x ∷ xs) = ground (arith, text_le_refl xs)

text_le_total : (xs ys : Text) → text_le xs ys ≡ false → text_le ys xs ≡ true
unfolding text_le
text_le_total [] ys h = cc
text_le_total (x ∷ xs) [] h = refl
text_le_total (x ∷ xs) (y ∷ ys) h = ground (arith, h, text_le_total xs ys)

module _ {ℓ} (base64 : Base64) {T : Type ℓ} (key_fn : T → List ℕ) where
  -- Each key is before all that follow it.
  abbrev pub Increasing : List T → Type 0
  Increasing [] = Unit
  Increasing (x ∷ xs) = All (λ y. text_le (key_fn y) (key_fn x) ≡ false) xs × Increasing xs

  -- The cursor behind the items of a first part.
  data Ends : List T → Option (List ℕ) → Type ℓ where
    start : Ends [] none
    behind : (init : List T) (x : T) → Ends (init ++ x ∷ []) (some (key_fn x))

  All_behind :
      (P : T → Type 0) (init : List T) (x : T) (rest : List T)
      → All P ((init ++ x ∷ []) ++ rest)
      → P x
  All_behind P [] x rest h = h.0
  All_behind P (i ∷ is) x rest h = All_behind P is x rest h.1

  skip_to-stops :
      (k : List ℕ) (rest : List T)
      → All (λ y. text_le (key_fn y) k ≡ false) rest
      → skip_to base64 key_fn k rest ≡ rest
  unfolding skip_to
  skip_to-stops k [] h = refl
  skip_to-stops k (y ∷ ys) h = rw (h.0) refl

  skip_to_behind :
      (init : List T) (x : T) (rest : List T)
      → Increasing ((init ++ x ∷ []) ++ rest)
      → skip_to base64 key_fn (key_fn x) ((init ++ x ∷ []) ++ rest) ≡ rest
  unfolding skip_to
  skip_to_behind [] x rest h = rw (text_le_refl (key_fn x)) (skip_to-stops (key_fn x) rest h.0)
  skip_to_behind (i ∷ is) x rest h =
      let before : text_le (key_fn i) (key_fn x) ≡ true =
        text_le_total (key_fn x) (key_fn i)
          (All_behind (λ y. text_le (key_fn y) (key_fn i) ≡ false) is x rest h.0) in
      rw before (skip_to_behind is x rest h.1)

  filtered-Ends :
      {pre : List T} {cursor : Option (List ℕ)} (rest : List T)
      → Ends pre cursor
      → Increasing (pre ++ rest)
      → filtered base64 key_fn cursor (pre ++ rest) ≡ rest
  filtered-Ends rest start h = refl
  filtered-Ends rest (behind init x) h = skip_to_behind init x rest h

  take_all : (n : ℕ) (xs : List T) → length xs ≤ n → take n xs ≡ xs
  take_all zero [] h = refl
  take_all zero (x ∷ xs) h = absurd (omega (arith, h))
  take_all (suc n) [] h = refl
  take_all (suc n) (x ∷ xs) h = ap (λ l. x ∷ l) (take_all n xs (omega (arith, h)))

  take-drop : (n : ℕ) (xs : List T) → take n xs ++ drop n xs ≡ xs
  take-drop zero xs = refl
  take-drop (suc n) [] = refl
  take-drop (suc n) (x ∷ xs) = ap (λ l. x ∷ l) (take-drop n xs)

  append_assoc : (xs ys zs : List T) → (xs ++ ys) ++ zs ≡ xs ++ (ys ++ zs)
  append_assoc [] ys zs = refl
  append_assoc (x ∷ xs) ys zs = ap (λ l. x ∷ l) (append_assoc xs ys zs)

  All-drop : (P : T → Type 0) (n : ℕ) (xs : List T) → All P xs → All P (drop n xs)
  All-drop P zero xs h = h
  All-drop P (suc n) [] h = h
  All-drop P (suc n) (x ∷ xs) h = All-drop P n xs h.1

  All-take : (P : T → Type 0) (n : ℕ) (xs : List T) → All P xs → All P (take n xs)
  All-take P zero xs h = tt
  All-take P (suc n) [] h = h
  All-take P (suc n) (x ∷ xs) h = (h.0, All-take P n xs h.1)

  -- A list that ends with an item.
  record Unsnoc (ys : List T) : Type ℓ where
    init : List T
    final : T
    same : ys ≡ init ++ final ∷ []
    key : last_key base64 key_fn ys ≡ some (key_fn final)

  unsnoc : (y : T) (ys : List T) → Unsnoc (y ∷ ys)
  unfolding last_key
  unsnoc y [] = record { init = []; final = y; same = refl; key = refl }
  unsnoc y (z ∷ zs) =
      let u = unsnoc z zs in
      record { init = y ∷ u.init; final = u.final; same = ap (λ l. y ∷ l) u.same; key = u.key }

  Unsnoc-take : (n : ℕ) (xs : List T) → 0 < n → n < length xs → Unsnoc (take n xs)
  Unsnoc-take zero xs h k = absurd (omega (arith, h))
  Unsnoc-take (suc n) [] h k = absurd (omega (arith, k))
  Unsnoc-take (suc n) (x ∷ xs) h k = unsnoc x (take n xs)

  abbrev prepend : List T → Option (List T) → Option (List T)
  prepend page none = none
  prepend page (some items) = some (page ++ items)

  abbrev continue : Option Text → List T → (Text → Option (List T)) → Option (List T)
  continue none page next = some page
  continue (some c) page next = prepend page (next c)

  split_at_final :
      (pre rest : List T) (limit : ℕ) (u : Unsnoc (take limit rest))
      → pre ++ rest ≡ ((pre ++ u.init) ++ u.final ∷ []) ++ drop limit rest
  split_at_final pre rest limit u =
      ap (λ l. pre ++ l) (sym (take-drop limit rest))
      ∙ ap (λ l. pre ++ (l ++ drop limit rest)) u.same
      ∙ sym (append_assoc pre (u.init ++ u.final ∷ []) (drop limit rest))
      ∙ ap (λ l. l ++ drop limit rest) (sym (append_assoc pre u.init (u.final ∷ [])))

  -- The pages that a client reads, each with the cursor of the one before it, in so many requests;
  -- none when the last of them brings a cursor still.
  unfoldable pub follow : ℕ → List T → Option Text → ℕ → Option (List T)
  follow zero items cursor limit = none
  follow (suc fuel) items cursor limit =
      let page =
        from_sorted base64 key_fn items
          (decode_cursor base64 (record { cursor = cursor; limit = none })) limit in
      continue page.next_cursor page.data_items (λ c. follow fuel items (some c) limit)

  abbrev pub IsText : T → Type 0
  IsText x = is_utf8 (key_fn x) ≡ true

  decode_cursor-encode :
      (x : T)
      → IsText x
      → decode_cursor base64 (record { cursor = some (base64.encode (key_fn x)); limit = none })
        ≡ some (key_fn x)
  unfolding decode_cursor
  decode_cursor-encode x h = rw (base64.decode-encode (key_fn x), h) refl

  All-final : (P : T → Type 0) (init : List T) (x : T) → All P (init ++ x ∷ []) → P x
  All-final P [] x h = h.0
  All-final P (i ∷ is) x h = All-final P is x h.1

  follow-rest :
      (fuel limit : ℕ) (pre rest : List T) (cursor : Option Text) (at : Option (List ℕ))
      → Ends pre at
      → decode_cursor base64 (record { cursor = cursor; limit = none }) ≡ at
      → 0 < limit
      → length rest < fuel
      → Increasing (pre ++ rest)
      → All IsText rest
      → follow fuel (pre ++ rest) cursor limit ≡ some rest
  unfolding follow from_sorted
  follow-rest zero limit pre rest cursor at ends d pos f inc txt = absurd (omega (arith, f))
  follow-rest (suc fuel) limit pre rest cursor at ends d pos f inc txt =
      let items : List T = pre ++ rest in
      let step : PaginatedResponse T → Option (List T) =
        λ page. continue page.next_cursor page.data_items (λ c. follow fuel items (some c) limit) in
      ap (λ a. step (page_of base64 key_fn (filtered base64 key_fn a items) limit)) d
      ∙ ap (λ r. step (page_of base64 key_fn r limit)) (filtered-Ends rest ends inc)
      ∙ elim (Bool-cases (ltb limit (length rest))) [
        | inl more ↦
            let u = Unsnoc-take limit rest pos (ltb→lt limit (length rest) more) in
            let text : IsText u.final =
              All-final IsText u.init u.final
                (subst (All IsText) u.same (All-take IsText limit rest txt)) in
            let split : items ≡ ((pre ++ u.init) ++ u.final ∷ []) ++ drop limit rest =
              split_at_final pre rest limit u in
            let later : follow fuel items (some (base64.encode (key_fn u.final))) limit
                ≡ some (drop limit rest) =
              rw split (
                follow-rest fuel limit ((pre ++ u.init) ++ u.final ∷ []) (drop limit rest) _ _
                  (behind (pre ++ u.init) u.final) (decode_cursor-encode u.final text) pos
                  (omega (arith, f, length-drop limit rest, pos, ltb→lt limit (length rest) more))
                  (subst Increasing split inc) (All-drop IsText limit rest txt)) in
            rw (more, u.key) (ap (prepend (take limit rest)) later ∙ ap some (take-drop limit rest))
        | inr last ↦ rw last (ap some (take_all limit rest (ground (arith, last))))
      ]

  -- A client that starts without a cursor and follows the cursors of the pages gets every item
  -- once and in order, and gets a page without a cursor, at which it stops, after at most as many
  -- requests as there are items and one more; when the limit is not 0 and the keys are texts that
  -- increase.
  pub follow_lem :
      (items : List T) (limit : ℕ)
      → 0 < limit
      → Increasing items
      → All IsText items
      → follow (length items + 1) items none limit ≡ some items
  unfolding decode_cursor
  follow_lem items limit pos inc txt =
      follow-rest (length items + 1) limit [] items none none start refl pos (omega arith) inc txt
