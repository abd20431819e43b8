-- ===== src/Picked.antt =====
-- Entries of a list of which some are selected, or which is mapped.
use mathlib.Core.Path.{subst}
use llm_wiki_chrome.Prelude.{
  ◌≡◌, refl, sym, ap, inl, inr, Bool, true, false, List, [], ◌∷◌, map, select, In,
}

pub select-In :
    {A : Type 0} (p : A → Bool) (xs : List A) (a : A) → In a (select p xs) → In a xs × (p a ≡ true)
unfolding select
select-In p [] a m = elim m [ ]
select-In {A} p (x ∷ xs) a m = split (p x) refl m (λ k. select-In p xs a k)
  where
    split :
        (b : Bool)
        → p x ≡ b
        → In a (elim b [ true ↦ x ∷ select p xs | false ↦ select p xs ])
        → (In a (select p xs) → In a xs × (p a ≡ true))
        → In a (x ∷ xs) × (p a ≡ true)
    split true e (inl q) ih = (inl q, subst (λ y. p y ≡ true) (sym q) e)
    split true e (inr k) ih = (inr (ih k).0, (ih k).1)
    split false e k ih = (inr (ih k).0, (ih k).1)

pub In-select :
    {A : Type 0} (p : A → Bool) (xs : List A) (a : A) → In a xs → p a ≡ true → In a (select p xs)
unfolding select
In-select p [] a m h = m
In-select {A} p (x ∷ xs) a m h = split (p x) refl m (λ k. In-select p xs a k h)
  where
    split :
        (b : Bool)
        → p x ≡ b
        → In a (x ∷ xs)
        → (In a xs → In a (select p xs))
        → In a (elim b [ true ↦ x ∷ select p xs | false ↦ select p xs ])
    split true e (inl q) ih = inl q
    split true e (inr k) ih = inr (ih k)
    split false e (inl q) ih = absurd (cc (subst (λ y. p y ≡ true) q h))
    split false e (inr k) ih = ih k

pub In-map :
    {A B : Type 0} (f : A → B) (xs : List A) (b : B)
    → In b (map f xs)
    → (a : A) × In a xs × (f a ≡ b)
In-map f [] b m = elim m [ ]
In-map f (x ∷ xs) b (inl q) = (x, inl refl, sym q)
In-map f (x ∷ xs) b (inr m) = let (a, there, q) = In-map f xs b m in (a, inr there, q)

pub map-In : {A B : Type 0} (f : A → B) (xs : List A) (a : A) → In a xs → In (f a) (map f xs)
map-In f [] a m = m
map-In f (x ∷ xs) a (inl q) = inl (ap f q)
map-In f (x ∷ xs) a (inr m) = inr (map-In f xs a m)
