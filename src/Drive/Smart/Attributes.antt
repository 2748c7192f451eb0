-- ===== src/Drive/Smart/Attributes.antt =====
-- The attributes of `readAtaSmartStatus` against the table of the drive.
use jcu_dparm.Common.{ℕ, zero, suc, ◌+◌, ◌*◌, ◌^◌, ◌≡◌, refl, sym, ap, ◌∙◌}
use jcu_dparm.Common.{arith, List, [], ◌∷◌, ◌++◌, map, true, if◌then◌else◌, ◌==◌}
use jcu_dparm.Common.{length, replicate, length-append, append_assoc, set, ltb}
use jcu_dparm.Common.{done, Bool-cases, inl, inr}
use jcu_dparm.Ata.Identify.{byte_at}
use jcu_dparm.Drive.Smart.{
  SmartAttribute, SmartStatus, new_attribute, entry_id, attribute_at, attributes_number, count_ids,
  store, fill_entry, fill, set_threshold, set_thresholds, parse_entries, parse_smart,
}

-- The entries with a number other than 0, in their order.
abbrev pub listed : List ℕ → ℕ → ℕ → List SmartAttribute
listed values zero i = []
listed values (suc n) i =
    let rest = listed values n (i + 1) in
    if entry_id values i == 0 then rest else attribute_at values i ∷ rest

abbrev pub without_threshold : SmartAttribute → SmartAttribute
without_threshold a = record a { threshold = 0 }

set-append :
    {A : Type 0} (front : List A) (x y : A) (back : List A)
    → set (front ++ (x ∷ back)) (length front) y ≡ front ++ (y ∷ back)
set-append [] x y back = refl
set-append (z ∷ front) x y back = ap (λ t. z ∷ t) (set-append front x y back)

store-append :
    (front back : List SmartAttribute) (x y : SmartAttribute)
    → store (front ++ (x ∷ back)) (length front) y ≡ done (front ++ (y ∷ back))
store-append front back x y =
    let fits : ltb (length front) (length (front ++ (x ∷ back))) ≡ true =
      ground (arith, length-append front (x ∷ back)) in
    rw fits (ap done (set-append front x y back))

fill_lem :
    (values : List ℕ) (n i : ℕ) (front : List SmartAttribute)
    → fill values n i (length front) (front ++ replicate (count_ids values n i) new_attribute)
      ≡ done (front ++ listed values n i)
unfolding fill fill_entry count_ids
fill_lem values zero i front = refl
fill_lem values (suc n) i front = elim (Bool-cases (entry_id values i == 0)) [
  | inl free ↦ rw free (fill_lem values n (i + 1) front)
  | inr used ↦
      let a = attribute_at values i in
      let back = replicate (count_ids values n (i + 1)) new_attribute in
      let next : length front + 1 ≡ length (front ++ (a ∷ [])) =
        omega (arith, length-append front (a ∷ [])) in
      rw (used, one_more (count_ids values n (i + 1)), store-append front back new_attribute a)
        (ap (λ k. fill values n (i + 1) k (front ++ (a ∷ back))) next
          ∙ ap (fill values n (i + 1) (length (front ++ (a ∷ []))))
              (sym (append_assoc front (a ∷ []) back))
          ∙ fill_lem values n (i + 1) (front ++ (a ∷ []))
          ∙ ap done (append_assoc front (a ∷ []) (listed values n (i + 1))))
]
  where
    one_more : (m : ℕ) → replicate (1 + m) new_attribute ≡ new_attribute ∷ replicate m new_attribute
    one_more m = let up : 1 + m ≡ suc m = omega arith in ap (λ k. replicate k new_attribute) up

set_threshold-erased :
    (id threshold : ℕ) (attributes : List SmartAttribute)
    → map without_threshold (set_threshold id threshold attributes)
      ≡ map without_threshold attributes
unfolding set_threshold
set_threshold-erased id threshold [] = refl
set_threshold-erased id threshold (a ∷ rest) = elim (Bool-cases (a.id == id)) [
  | inl same ↦ rw same refl
  | inr other ↦
      rw other (ap (λ t. without_threshold a ∷ t) (set_threshold-erased id threshold rest))
]

set_thresholds-erased :
    (thresholds : List ℕ) (n i : ℕ) (attributes : List SmartAttribute)
    → map without_threshold (set_thresholds thresholds n i attributes)
      ≡ map without_threshold attributes
unfolding set_thresholds
set_thresholds-erased thresholds zero i attributes = refl
set_thresholds-erased thresholds (suc n) i attributes =
    elim (Bool-cases (entry_id thresholds i == 0)) [
      | inl free ↦ rw free (set_thresholds-erased thresholds n (i + 1) attributes)
      | inr used ↦ rw used (
          set_thresholds-erased thresholds n (i + 1) _
          ∙ set_threshold-erased (entry_id thresholds i) (byte_at thresholds (3 + 12 * i))
              attributes)
    ]

listed-erased :
    (values : List ℕ) (n i : ℕ) → map without_threshold (listed values n i) ≡ listed values n i
unfolding attribute_at
listed-erased values zero i = refl
listed-erased values (suc n) i = elim (Bool-cases (entry_id values i == 0)) [
  | inl free ↦ rw free (listed-erased values n (i + 1))
  | inr used ↦ rw used (ap (λ t. attribute_at values i ∷ t) (listed-erased values n (i + 1)))
]

parse_entries_lem :
    (n : ℕ) (values thresholds : List ℕ)
    → (s : SmartStatus) × (parse_entries n values thresholds ≡ done s)
      × (map without_threshold s.attributes ≡ listed values n 0)
unfolding parse_entries
parse_entries_lem n values thresholds = (
  record {
    smart_capability = byte_at values 368 + byte_at values 369 * 2 ^ 8;
    attributes = set_thresholds thresholds n 0 (listed values n 0);
  },
  rw (fill_lem values n 0 []) refl,
  set_thresholds-erased thresholds n 0 (listed values n 0) ∙ listed-erased values n 0,
)

-- On any two answers the loops stay inside the vector that was sized by the first of them, and the
-- status lists the attributes with a number other than 0, in the order of the table, with the
-- fields of the first answer; the second answer changes thresholds alone.
pub parse_smart_lem :
    (values thresholds : List ℕ)
    → (s : SmartStatus) × (parse_smart values thresholds ≡ done s)
      × (map without_threshold s.attributes ≡ listed values attributes_number 0)
unfolding parse_smart
parse_smart_lem values thresholds = parse_entries_lem attributes_number values thresholds
