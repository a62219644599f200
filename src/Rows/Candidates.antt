-- ===== src/Rows/Candidates.antt =====
-- The candidates of the paths, as maps: src/object-store.js.
use objy.Common.{
  ℕ, suc, ◌+◌, ◌≤◌, ◌≡◌, refl, subst, leb, ltb, ◌==◌, Bool, true, false, ◌&&◌, ◌||◌, none, some, [],
  ◌∷◌, length, is_some, get_or, Bool-cases, Option-cases, inl, inr, arith,
}
use objy.Common.Text.{Text, text_eq}
use objy.Common.Dict.{Dict, get, put}
use objy.Rows.{remove_key, drop_oldest, without_oldest}

-- the candidates of all paths
abbrev pub total : Dict (Dict ℕ) → ℕ
total [] = 0
total ((path, cs) ∷ paths) = length cs + total paths

pub total-put :
    (path : Text) (cs : Dict ℕ) (paths : Dict (Dict ℕ))
    → total (put path cs paths) + length (get_or (get path paths) []) ≡ total paths + length cs
unfolding put get
total-put path cs [] = omega arith
total-put path cs ((p, ds) ∷ paths) = elim (Bool-cases (text_eq p path)) [
  | inl e ↦ rw e (omega arith)
  | inr e ↦ rw e (omega (arith, total-put path cs paths))
]

pub length-put_new :
    {V : Type 0} (key : Text) (v : V) (d : Dict V)
    → is_some (get key d) ≡ false
    → length (put key v d) ≡ length d + 1
unfolding put get
length-put_new key v [] h = omega arith
length-put_new key v ((k, w) ∷ d) h = elim (Bool-cases (text_eq k key)) [
  | inl e ↦ ground (arith, rw e at h)
  | inr e ↦ rw e (omega (arith, length-put_new key v d (rw e at h)))
]

pub length-put_there :
    {V : Type 0} (key : Text) (v : V) (d : Dict V)
    → is_some (get key d) ≡ true
    → length (put key v d) ≡ length d
unfolding put get
length-put_there key v [] h = ground (arith, h)
length-put_there key v ((k, w) ∷ d) h = elim (Bool-cases (text_eq k key)) [
  | inl e ↦ rw e refl
  | inr e ↦ rw e (omega (arith, length-put_there key v d (rw e at h)))
]

pub length-remove_key :
    {V : Type 0} (key : Text) (d : Dict V)
    → is_some (get key d) ≡ true
    → length (remove_key key d) + 1 ≡ length d
unfolding remove_key get
length-remove_key key [] h = ground (arith, h)
length-remove_key key ((k, w) ∷ d) h = elim (Bool-cases (text_eq k key)) [
  | inl e ↦ rw e (omega arith)
  | inr e ↦ rw e (omega (arith, length-remove_key key d (rw e at h)))
]

pub some_same : {A : Type 0} {a b : A} → some a ≡ some b → a ≡ b
some_same e = cc

pub drop_oldest-total :
    (paths rest : Dict (Dict ℕ)) → drop_oldest paths ≡ some rest → total rest + 1 ≡ total paths
unfolding drop_oldest
drop_oldest-total [] rest e = cc
drop_oldest-total ((p, []) ∷ paths) rest e = elim (Option-cases (drop_oldest paths)) [
  | inl f ↦ ground (arith, rw f at e)
  | inr (r, f) ↦
      subst (λ x. total x + 1 ≡ 0 + total paths) (some_same (rw f at e))
        (omega (arith, drop_oldest-total paths r f))
]
drop_oldest-total ((p, c ∷ cs) ∷ paths) rest e =
    subst (λ x. total x + 1 ≡ suc (length cs) + total paths) (some_same e) (omega arith)

-- the key is no candidate of the path
abbrev pub IsAbsent : Text → Text → Dict (Dict ℕ) → Type 0
IsAbsent path key paths = is_some (get key (get_or (get path paths) [])) ≡ false

absent_tail :
    (key k : Text) (n : ℕ) (cs : Dict ℕ)
    → is_some (get key ((k, n) ∷ cs)) ≡ false
    → is_some (get key cs) ≡ false
unfolding get
absent_tail key k n cs h = elim (Bool-cases (text_eq k key)) [
  | inl e ↦ ground (arith, rw e at h)
  | inr e ↦ rw e at h
]

pub drop_oldest-IsAbsent :
    (path key : Text) (paths rest : Dict (Dict ℕ))
    → drop_oldest paths ≡ some rest
    → IsAbsent path key paths
    → IsAbsent path key rest
unfolding drop_oldest get
drop_oldest-IsAbsent path key [] rest e h = cc
drop_oldest-IsAbsent path key ((p, []) ∷ paths) rest e h = elim (Option-cases (drop_oldest paths)) [
  | inl f ↦ ground (arith, rw f at e)
  | inr (r, f) ↦
      subst (IsAbsent path key) (some_same (rw f at e)) (elim (Bool-cases (text_eq p path)) [
        | inl g ↦ rw g refl
        | inr g ↦ rw g (drop_oldest-IsAbsent path key paths r f (rw g at h))
      ])
]
drop_oldest-IsAbsent path key ((p, (k, n) ∷ cs) ∷ paths) rest e h =
    subst (IsAbsent path key) (some_same e) (elim (Bool-cases (text_eq p path)) [
      | inl g ↦ rw g (absent_tail key k n cs (rw g at h))
      | inr g ↦ rw g (rw g at h)
    ])

pub length-total :
    (path : Text) (paths : Dict (Dict ℕ)) → length (get_or (get path paths) []) ≤ total paths
unfolding get
length-total path [] = omega arith
length-total path ((p, cs) ∷ paths) = elim (Bool-cases (text_eq p path)) [
  | inl e ↦ rw e (omega arith)
  | inr e ↦ rw e (omega (arith, length-total path paths))
]

pub length-without_oldest :
    (cs : Dict ℕ) → 1 ≤ length cs → length (without_oldest cs) + 1 ≡ length cs
length-without_oldest [] h = absurd (omega (arith, h))
length-without_oldest (c ∷ cs) h = omega arith

pub absent_without_oldest :
    (key : Text) (cs : Dict ℕ)
    → is_some (get key cs) ≡ false
    → is_some (get key (without_oldest cs)) ≡ false
absent_without_oldest key [] h = h
absent_without_oldest key ((k, n) ∷ cs) h = absent_tail key k n cs h

pub or_right : (a b : Bool) → a || b ≡ false → b ≡ false
or_right true b h = ground (arith, h)
or_right false b h = h

pub none_there :
    (path : Text) (paths : Dict (Dict ℕ))
    → is_some (get path paths) ≡ false
    → length (get_or (get path paths) []) ≡ 0
none_there path paths h = elim (Option-cases (get path paths)) [
  | inl e ↦ rw e refl
  | inr (cs, e) ↦ ground (arith, rw e at h)
]

pub some_length : (m n : ℕ) → (m == 0) ≡ false → leb m n ≡ true → 1 ≤ n
some_length m n z e = ground arith

bool_conflict : false ≡ true → ⊥
bool_conflict e = cc

pub and_room : (a b : ℕ) (c : Bool) → ltb a b && c ≡ true → a + 1 ≤ b
and_room a b c h = elim (Bool-cases (ltb a b)) [
  | inl e ↦ ground (arith, e)
  | inr e ↦ absurd (bool_conflict (rw e at h))
]

pub option_conflict : {A : Type 0} {a : A} → none ≡ some a → ⊥
option_conflict e = cc
