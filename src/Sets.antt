-- ===== src/Sets.antt =====
-- What the tests on lists of texts decide.
use llm_wiki_chrome.Prelude.{
  insert_by, sort_by, ◌↔◌, ◌⊎◌, ◌<◌, String, ◌≡◌, refl, inl, inr, Bool, true, false, List, [], ◌∷◌,
  ◌++◌, index, leb, arith, ◌==◌, eq_iff, Bool-cases, contains, unique, subset, same_set, count, all,
  any, In, Distinct,
}

pub contains-In : (xs : List String) (s : String) → contains xs s ≡ true → In s xs
unfolding contains
contains-In [] s h = ground arith
contains-In (x ∷ xs) s h = elim (Bool-cases (x == s)) [
  | inl e ↦ inl (ground (arith, eq_iff x s))
  | inr e ↦ inr (contains-In xs s (ground arith))
]

pub In-contains : (xs : List String) (s : String) → In s xs → contains xs s ≡ true
unfolding contains
In-contains [] s h = elim h [ ]
In-contains (x ∷ xs) s (inl e) = ground (arith, eq_iff x s)
In-contains (x ∷ xs) s (inr h) = ground (arith, In-contains xs s h)

pub contains-false : (xs : List String) (s : String) → contains xs s ≡ false → ¬ (In s xs)
contains-false xs s h m = cc (In-contains xs s m)

pub unique-Distinct : (xs : List String) → unique xs ≡ true → Distinct xs
unfolding unique
unique-Distinct [] h = tt
unique-Distinct (x ∷ xs) h =
    (λ m. ground (arith, In-contains xs x m), unique-Distinct xs (ground arith))

pub Distinct-unique : (xs : List String) → Distinct xs → unique xs ≡ true
unfolding unique
Distinct-unique [] h = refl
Distinct-unique (x ∷ xs) h = elim (Bool-cases (contains xs x)) [
  | inl e ↦ absurd (h.0 (contains-In xs x e))
  | inr e ↦ ground (arith, Distinct-unique xs h.1)
]

pub subset-In : (xs ys : List String) (s : String) → subset xs ys ≡ true → In s xs → In s ys
unfolding subset
subset-In [] ys s h m = elim m [ ]
subset-In (x ∷ xs) ys s h (inl e) = contains-In ys s (ground arith)
subset-In (x ∷ xs) ys s h (inr m) = subset-In xs ys s (ground arith) m

pub same_set-In :
    (xs ys : List String) (s : String)
    → same_set xs ys ≡ true
    → (In s xs → In s ys) × (In s ys → In s xs)
unfolding same_set
same_set-In xs ys s h = (subset-In xs ys s (ground arith), subset-In ys xs s (ground arith))

pub count-zero-In : (s : String) (xs : List String) → count s xs ≡ 0 → ¬ (In s xs)
unfolding count
count-zero-In s [] h m = m
count-zero-In s (x ∷ xs) h (inl e) = ground (arith, eq_iff x s)
count-zero-In s (x ∷ xs) h (inr m) = count-zero-In s xs (ground (arith, eq_iff x s)) m

pub In-count : (s : String) (xs : List String) → 0 < count s xs → In s xs
unfolding count
In-count s [] h = elim h [ ]
In-count s (x ∷ xs) h = elim (Bool-cases (x == s)) [
  | inl e ↦ inl (ground (arith, eq_iff x s))
  | inr e ↦ inr (In-count s xs (ground arith))
]

pub any-false :
    {A : Type 0} (p : A → Bool) (xs : List A) (a : A) → any p xs ≡ false → In a xs → p a ≡ false
unfolding any
any-false p [] a h m = elim m [ ]
any-false p (x ∷ xs) a h (inl e) = ground arith
any-false p (x ∷ xs) a h (inr m) = any-false p xs a (ground arith) m

pub all-In :
    {A : Type 0} (p : A → Bool) (xs : List A) (a : A) → all p xs ≡ true → In a xs → p a ≡ true
unfolding all
all-In p [] a h m = elim m [ ]
all-In p (x ∷ xs) a h (inl e) = ground arith
all-In p (x ∷ xs) a h (inr m) = all-In p xs a (ground arith) m

pub any-In :
    {A : Type 0} (p : A → Bool) (xs : List A) → any p xs ≡ true → (a : A) × In a xs × (p a ≡ true)
unfolding any
any-In p [] h = ground arith
any-In p (x ∷ xs) h = elim (Bool-cases (p x)) [
  | inl e ↦ (x, inl refl, e)
  | inr e ↦ let (a, m, q) = any-In p xs (ground arith) in (a, inr m, q)
]

-- The texts before and after an entry that stands once.
pub count_one_split :
    (s : String) (xs : List String)
    → count s xs ≡ 1
    → (before : List String) × (after : List String) × (xs ≡ before ++ s ∷ after)
      × ¬ (In s before)
      × ¬ (In s after)
unfolding count
count_one_split s [] h = ground arith
count_one_split s (x ∷ xs) h = elim (Bool-cases (x == s)) [
  | inl e ↦ ([], xs, ground (arith, eq_iff x s), (λ m. m), count-zero-In s xs (ground arith))
  | inr e ↦
      let (before, after, q, out_before, out_after) = count_one_split s xs (ground arith) in
      (x ∷ before, after, ground arith, elim-cons before out_before e, out_after)
]
  where
    elim-cons : (before : List String) → ¬ (In s before) → (x == s) ≡ false → ¬ (In s (x ∷ before))
    elim-cons before out e (inl m) = ground (arith, eq_iff x s)
    elim-cons before out e (inr m) = out m

-- Two entries that stand once each, the first before the second.
pub index_split :
    (s t : String) (xs : List String)
    → count s xs ≡ 1
    → count t xs ≡ 1
    → leb (index t xs) (index s xs) ≡ false
    → (a : List String) × (b : List String) × (c : List String) × (xs ≡ a ++ (s ∷ (b ++ t ∷ c)))
unfolding count index
index_split s t [] hs ht h = ground arith
index_split s t (x ∷ xs) hs ht h = elim (Bool-cases (x == s)) [
  | inl e ↦ elim (Bool-cases (x == t)) [
    | inl f ↦ absurd (ground arith)
    | inr f ↦
        let (b, c, q, _, _) = count_one_split t xs (ground arith) in
        ([], b, c, ground (arith, eq_iff x s))
  ]
  | inr e ↦ elim (Bool-cases (x == t)) [
    | inl f ↦ absurd (ground arith)
    | inr f ↦
        let (a, b, c, q) = index_split s t xs (ground arith) (ground arith) (ground arith) in
        (x ∷ a, b, c, ground arith)
  ]
]

pub In-append : {A : Type 0} (a : A) (xs ys : List A) → In a (xs ++ ys) → In a xs ⊎ In a ys
In-append a [] ys m = inr m
In-append a (x ∷ xs) ys (inl e) = inl (inl e)
In-append a (x ∷ xs) ys (inr m) = elim (In-append a xs ys m) [ inl k ↦ inl (inr k) | inr k ↦ inr k ]

pub append-In : {A : Type 0} (a : A) (xs ys : List A) → In a xs ⊎ In a ys → In a (xs ++ ys)
append-In a [] ys (inl m) = elim m [ ]
append-In a [] ys (inr m) = m
append-In a (x ∷ xs) ys (inl (inl e)) = inl e
append-In a (x ∷ xs) ys (inl (inr m)) = inr (append-In a xs ys (inl m))
append-In a (x ∷ xs) ys (inr m) = inr (append-In a xs ys (inr m))

module _ {A : Type 0} (before : A → A → Bool) where
  insert_by-In : (x a : A) (l : List A) → In x (insert_by before a l) → (x ≡ a) ⊎ In x l
  unfolding insert_by
  insert_by-In x a [] m = m
  insert_by-In x a (b ∷ rest) m = split (before a b) (insert_by-In x a rest) m
    where
      split :
          (t : Bool)
          → (In x (insert_by before a rest) → (x ≡ a) ⊎ In x rest)
          → In x (elim t [ true ↦ a ∷ b ∷ rest | false ↦ b ∷ insert_by before a rest ])
          → (x ≡ a) ⊎ In x (b ∷ rest)
      split true ih m = m
      split false ih (inl e) = inr (inl e)
      split false ih (inr m) = elim (ih m) [ inl e ↦ inl e | inr k ↦ inr (inr k) ]

  In-insert_by : (x a : A) (l : List A) → (x ≡ a) ⊎ In x l → In x (insert_by before a l)
  unfolding insert_by
  In-insert_by x a [] m = m
  In-insert_by x a (b ∷ rest) m = split (before a b) (In-insert_by x a rest) m
    where
      split :
          (t : Bool)
          → ((x ≡ a) ⊎ In x rest → In x (insert_by before a rest))
          → (x ≡ a) ⊎ In x (b ∷ rest)
          → In x (elim t [ true ↦ a ∷ b ∷ rest | false ↦ b ∷ insert_by before a rest ])
      split true ih m = m
      split false ih (inl e) = inr (ih (inl e))
      split false ih (inr (inl e)) = inl e
      split false ih (inr (inr m)) = inr (ih (inr m))

  -- Sorting keeps the entries.
  pub sort_by-In : (x : A) (l : List A) → In x (sort_by before l) ↔ In x l
  unfolding sort_by
  sort_by-In x [] = (λ m. m, λ m. m)
  sort_by-In x (a ∷ rest) = (
    λ m. elim (insert_by-In x a (sort_by before rest) m) [
      | inl e ↦ inl e
      | inr k ↦ inr ((sort_by-In x rest).0 k)
    ],
    λ m.
        In-insert_by x a (sort_by before rest)
          (elim m [ inl e ↦ inl e | inr k ↦ inr ((sort_by-In x rest).1 k) ]),
  )
