-- ===== src/ShardMap/Sort.antt =====
-- Sorted lists of distinct texts are determined by their members.
use objy.Common.{
  ◌≡◌, ◌⊎◌, refl, sym, Bool, true, false, List, [], ◌∷◌, if◌then◌else◌, All, Member, Bool-cases,
  inl, inr, All-Member,
}
use objy.Common.Text.{Text, text_gt, text_gt_irrefl, text_gt_trans, text_gt_total, text_gt_asym}
use objy.ShardMap.{insert_text, sort_texts}

-- no text twice
abbrev pub Distinct : List Text → Type 0
Distinct [] = Unit
Distinct (x ∷ xs) = (¬ Member x xs) × Distinct xs

abbrev pub Ascends : List Text → Type 0
Ascends [] = Unit
Ascends (x ∷ xs) = All (λ y. text_gt y x ≡ true) xs × Ascends xs

mem-insert_text :
    (a x : Text) (xs : List Text) → (a ≡ x) ⊎ Member a xs → Member a (insert_text x xs)
unfolding insert_text
mem-insert_text a x [] h = h
mem-insert_text a x (y ∷ ys) h =
    go (text_gt x y) h (λ p. mem-insert_text a x ys (inl p)) (λ m. mem-insert_text a x ys (inr m))
  where
    go :
        (b : Bool)
        → (a ≡ x) ⊎ Member a (y ∷ ys)
        → (a ≡ x → Member a (insert_text x ys))
        → (Member a ys → Member a (insert_text x ys))
        → Member a (if b then y ∷ insert_text x ys else x ∷ y ∷ ys)
    go false h f g = h
    go true (inl p) f g = inr (f p)
    go true (inr (inl p)) f g = inl p
    go true (inr (inr m)) f g = inr (g m)

insert_text-mem :
    (a x : Text) (xs : List Text) → Member a (insert_text x xs) → (a ≡ x) ⊎ Member a xs
unfolding insert_text
insert_text-mem a x [] h = h
insert_text-mem a x (y ∷ ys) h = go (text_gt x y) h (insert_text-mem a x ys)
  where
    go :
        (b : Bool)
        → Member a (if b then y ∷ insert_text x ys else x ∷ y ∷ ys)
        → (Member a (insert_text x ys) → (a ≡ x) ⊎ Member a ys)
        → (a ≡ x) ⊎ Member a (y ∷ ys)
    go false h f = h
    go true (inl p) f = inr (inl p)
    go true (inr m) f = elim (f m) [ inl p ↦ inl p | inr k ↦ inr (inr k) ]

pub mem-sort_texts : (a : Text) (xs : List Text) → Member a xs → Member a (sort_texts xs)
unfolding sort_texts
mem-sort_texts a [] h = h
mem-sort_texts a (x ∷ xs) (inl e) = mem-insert_text a x (sort_texts xs) (inl e)
mem-sort_texts a (x ∷ xs) (inr m) =
    mem-insert_text a x (sort_texts xs) (inr (mem-sort_texts a xs m))

pub sort_texts-mem : (a : Text) (xs : List Text) → Member a (sort_texts xs) → Member a xs
unfolding sort_texts
sort_texts-mem a [] h = h
sort_texts-mem a (x ∷ xs) h = elim (insert_text-mem a x (sort_texts xs) h) [
  | inl e ↦ inl e
  | inr m ↦ inr (sort_texts-mem a xs m)
]

All-of_mem : (P : Text → Type 0) (xs : List Text) → ((a : Text) → Member a xs → P a) → All P xs
All-of_mem P [] f = tt
All-of_mem P (x ∷ xs) f = (f x (inl refl), All-of_mem P xs (λ a m. f a (inr m)))

insert_text-Ascends :
    (x : Text) (xs : List Text) → (¬ Member x xs) → Ascends xs → Ascends (insert_text x xs)
unfolding insert_text
insert_text-Ascends x [] n a = (tt, tt)
insert_text-Ascends x (y ∷ ys) n a = elim (Bool-cases (text_gt x y)) [
  | inl e ↦ rw e (
    All-of_mem (λ z. text_gt z y ≡ true) (insert_text x ys)
        (λ z m. above z (insert_text-mem z x ys m) e),
    insert_text-Ascends x ys (λ m. n (inr m)) a.1,
  )
  | inr e ↦
      rw e (
        (below e, All-of_mem _ ys (λ z m. text_gt_trans z y x (All-Member _ ys a.0 m) (below e))),
        a,
      )
]
  where
    above : (z : Text) → (z ≡ x) ⊎ Member z ys → text_gt x y ≡ true → text_gt z y ≡ true
    above z (inl p) e = rw p e
    above z (inr m) e = All-Member (λ w. text_gt w y ≡ true) ys a.0 m

    below : text_gt x y ≡ false → text_gt y x ≡ true
    below e = elim (Bool-cases (text_gt y x)) [
      | inl g ↦ g
      | inr g ↦ absurd (n (inl (text_gt_total x y e g)))
    ]

pub sort_texts-Ascends : (xs : List Text) → Distinct xs → Ascends (sort_texts xs)
unfolding sort_texts
sort_texts-Ascends [] d = tt
sort_texts-Ascends (x ∷ xs) d =
    insert_text-Ascends x (sort_texts xs) (λ m. d.0 (sort_texts-mem x xs m))
      (sort_texts-Ascends xs d.1)

-- the first of a list that holds another list's first is not above it
first-eq :
    (x y : Text) (xs ys : List Text)
    → Ascends (x ∷ xs)
    → Ascends (y ∷ ys)
    → Member x (y ∷ ys)
    → Member y (x ∷ xs)
    → x ≡ y
first-eq x y xs ys a b (inl e) m = e
first-eq x y xs ys a b (inr k) (inl e) = sym e
first-eq x y xs ys a b (inr k) (inr m) = absurd (
    cc (
      text_gt_asym x y (All-Member (λ w. text_gt w y ≡ true) ys b.0 k),
      All-Member (λ w. text_gt w x ≡ true) xs a.0 m,
    ))

-- a member of the rest is not the first, so it is a member of the other rest
in_rest :
    (x y a : Text) (xs ys : List Text)
    → x ≡ y
    → All (λ w. text_gt w x ≡ true) xs
    → Member a xs
    → Member a (y ∷ ys)
    → Member a ys
in_rest x y a xs ys e h m (inr k) = k
in_rest x y a xs ys e h m (inl p) =
    absurd (cc (text_gt_irrefl x, All-Member (λ w. text_gt w x ≡ true) xs h m, p, e))

-- Two ascending lists with the same members are equal.
pub Ascends-unique :
    (xs ys : List Text)
    → Ascends xs
    → Ascends ys
    → ((a : Text) → Member a xs → Member a ys)
    → ((a : Text) → Member a ys → Member a xs)
    → xs ≡ ys
Ascends-unique [] [] a b f g = refl
Ascends-unique [] (y ∷ ys) a b f g = absurd (g y (inl refl))
Ascends-unique (x ∷ xs) [] a b f g = absurd (f x (inl refl))
Ascends-unique (x ∷ xs) (y ∷ ys) a b f g =
    let e = first-eq x y xs ys a b (f x (inl refl)) (g y (inl refl)) in
    cc (
      e,
      Ascends-unique xs ys a.1 b.1 (λ z m. in_rest x y z xs ys e a.0 m (f z (inr m)))
          (λ z m. in_rest y x z ys xs (sym e) b.0 m (g z (inr m))),
    )
