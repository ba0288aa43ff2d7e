-- ===== src/Dbms/Fs/Laws.antt =====
-- Laws of the tree: a change shows at its own path, and nowhere else.
use ds_lab_assignment.Prelude.{
  ℕ, zero, suc, ◌≡◌, refl, if◌then◌else◌, true, false, [], ◌∷◌, ◌++◌, Option, none, some, Bytes,
  str_eq, str_eq_iff, Bool-cases, Option-cases, inl, inr, str_eq_refl, arith,
}
use ds_lab_assignment.Dbms.Fs.{
  Node, file, dir, Entries, end, entry, Result, ok, err, FilePath, found, child, put_child,
  insert_child, insert_new, Place, names, drop_child, walk, Change, in_dir, back_in, change, create,
  rewrite, settle, FileData,
}

pub child-put_child :
    (k j : Bytes) (node : Node) (es : Entries)
    → child j (put_child k node es) ≡ (if str_eq k j then some node else child j es)
unfolding child put_child
child-put_child k j node end = refl
child-put_child k j node (entry i old rest) =
    ground (arith, str_eq_iff k j, str_eq_iff i k, str_eq_iff i j, child-put_child k j node rest)

pub child-insert_child :
    (n : ℕ) (k j : Bytes) (node : Node) (es : Entries)
    → child k es ≡ none
    → child j (insert_child n k node es) ≡ (if str_eq k j then some node else child j es)
unfolding child insert_child
child-insert_child zero k j node es free = refl
child-insert_child (suc n) k j node end free = refl
child-insert_child (suc n) k j node (entry i old rest) free = ground (
  arith,
  str_eq_iff k j,
  str_eq_iff i k,
  str_eq_iff i j,
  str_eq_refl k,
  child-insert_child n k j node rest,
)

pub put_child-insert_child :
    (n : ℕ) (k : Bytes) (old new : Node) (es : Entries)
    → child k es ≡ none
    → put_child k new (insert_child n k old es) ≡ insert_child n k new es
unfolding child insert_child put_child
put_child-insert_child zero k old new es free = ground (arith, str_eq_refl k)
put_child-insert_child (suc n) k old new end free = ground (arith, str_eq_refl k)
put_child-insert_child (suc n) k old new (entry i node rest) free =
    ground (arith, put_child-insert_child n k old new rest)

pub child-drop_child :
    (k j : Bytes) (es : Entries)
    → child j (drop_child k es) ≡ (if str_eq k j then none else child j es)
unfolding child drop_child
child-drop_child k j end = ground arith
child-drop_child k j (entry i old rest) =
    ground (arith, str_eq_iff k j, str_eq_iff i k, str_eq_iff i j, child-drop_child k j rest)

pub walk-append : (p q : FilePath) (t n : Node) → walk p t ≡ ok n → walk (p ++ q) t ≡ walk q n
unfolding walk
walk-append [] q t n h = ground arith
walk-append (name ∷ p) q (file d) n h = cc
walk-append (name ∷ p) q (dir es) n h = elim (Option-cases (child name es)) [
  | inl gone ↦ ground arith
  | inr (m, here) ↦ ground (arith, walk-append p q m n)
]

-- A change that leaves the entries of other names alone.
pub record IsLocal (f : Change) : Type 0 where
  pub others :
      (name other : Bytes) (es es' : Entries)
      → f name es ≡ ok es'
      → str_eq name other ≡ false
      → child other es' ≡ child other es

-- A change that leaves `o` under its name.
pub record Leaves (o : Option Node) (f : Change) : Type 0 where
  pub here : (name : Bytes) (es es' : Entries) → f name es ≡ ok es' → child name es' ≡ o

module _ (place : Place) (node : Node) where
  -- what is made was not there
  pub create-eq-ok :
      (name : Bytes) (es es' : Entries)
      → create place node name es ≡ ok es'
      → (child name es ≡ none) × (insert_new place name node es ≡ es')
  unfolding create
  create-eq-ok name es es' h = elim (Option-cases (child name es)) [
    | inl free ↦ (free, ground (arith, free))
    | inr (m, taken) ↦ absurd (ground (arith, taken))
  ]

  pub create-IsLocal : IsLocal (create place node)
  create-IsLocal = record {
    others = λ name other es es' h d.
        let (free, made) = create-eq-ok name es es' h in
        ground (arith, made, child-insert_child (place name (names es)) name other node es free);
  }

  pub create-Leaves : Leaves (some node) (create place node)
  create-Leaves = record {
    here = λ name es es' h.
        let (free, made) = create-eq-ok name es es' h in
        ground (
          arith,
          made,
          child-insert_child (place name (names es)) name name node es free,
          str_eq_refl name,
        );
  }

pub rewrite-IsLocal : (d : FileData) → IsLocal (rewrite d)
unfolding rewrite
rewrite-IsLocal d = record {
  others = λ name other es es' h e. ground (arith, child-put_child name other (file d) es);
}

pub rewrite-Leaves : (d : FileData) → Leaves (some (file d)) (rewrite d)
unfolding rewrite
rewrite-Leaves d = record {
  here = λ name es es' h. ground (arith, child-put_child name name (file d) es, str_eq_refl name);
}

pub settle-IsLocal : (o : Option Node) → IsLocal (settle o)
unfolding settle
settle-IsLocal none = record {
  others = λ name other es es' h e. ground (arith, child-drop_child name other es);
}
settle-IsLocal (some node) = record {
  others = λ name other es es' h e. ground (arith, child-put_child name other node es);
}

pub settle-Leaves : (o : Option Node) → Leaves o (settle o)
unfolding settle
settle-Leaves none = record {
  here = λ name es es' h. ground (arith, child-drop_child name name es, str_eq_refl name);
}
settle-Leaves (some node) = record {
  here = λ name es es' h. ground (arith, child-put_child name name node es, str_eq_refl name);
}

-- The paths part before either ends.
abbrev pub Apart : FilePath → FilePath → Type 0
Apart [] q = ⊥
Apart (a ∷ p) [] = ⊥
Apart (a ∷ p) (b ∷ q) = str_eq a b ≡ true → Apart p q

pub in_dir-eq-ok :
    (r : Result Entries) (t : Node) → in_dir r ≡ ok t → (es : Entries) × (r ≡ ok es) × (t ≡ dir es)
in_dir-eq-ok (ok es) t h = (es, refl, cc)
in_dir-eq-ok (err e) t h = cc

back_in-eq-ok :
    (a : Bytes) (es : Entries) (r : Result Node) (t : Node)
    → back_in a es r ≡ ok t
    → (n : Node) × (r ≡ ok n) × (t ≡ dir (put_child a n es))
back_in-eq-ok a es (ok n) t h = (n, refl, cc)
back_in-eq-ok a es (err e) t h = cc

-- a change further down replaces one entry
pub record Deeper (f : Change) (a : Bytes) (p : FilePath) (es : Entries) (t : Node) : Type 0 where
  pub old : Node
  pub new : Node
  pub was : child a es ≡ some old
  pub changed : change f p old ≡ ok new
  pub result : t ≡ dir (put_child a new es)

pub change-Deeper :
    (f : Change) (a b : Bytes) (p : FilePath) (es : Entries) (t : Node)
    → change f (a ∷ b ∷ p) (dir es) ≡ ok t
    → Deeper f a (b ∷ p) es t
unfolding change
change-Deeper f a b p es t h = elim (Option-cases (child a es)) [
  | inl gone ↦ absurd (ground arith)
  | inr (old, was) ↦
      let step : back_in a es (change f (b ∷ p) old) ≡ ok t = ground arith in
      let (new, changed, result) = back_in-eq-ok a es (change f (b ∷ p) old) t step in
      record { old = old; new = new; was = was; changed = changed; result = result }
]

module _ {f : Change} where
  -- At the changed path stands what the change leaves there.
  pub walk-change_self :
      {o : Option Node}
      → Leaves o f
      → (p : FilePath) (t t' : Node) → change f p t ≡ ok t'
      → walk p t' ≡ found o
  unfolding walk
  walk-change_self l [] t t' h = unfold change in cc
  walk-change_self l (a ∷ p) (file d) t' h = unfold change in cc
  walk-change_self {o} l (a ∷ []) (dir es) t' h =
      let (es', made, e) = in_dir-eq-ok (f a es) t' (unfold change in h) in
      ground (arith, e, l.here a es es' made)
  walk-change_self l (a ∷ b ∷ p) (dir es) t' h =
      let d = change-Deeper f a b p es t' h in
      ground (
        arith,
        d.result,
        child-put_child a a d.new es,
        str_eq_refl a,
        walk-change_self l (b ∷ p) d.old d.new d.changed,
      )

  -- A path that parts from the changed one leads where it led before.
  pub walk-change-Apart :
      IsLocal f
      → (p q : FilePath) (t t' : Node) → Apart p q
      → change f p t ≡ ok t'
      → walk q t' ≡ walk q t
  unfolding walk
  walk-change-Apart l [] q t t' apart h = absurd apart
  walk-change-Apart l (a ∷ p) [] t t' apart h = absurd apart
  walk-change-Apart l (a ∷ p) (b ∷ q) (file d) t' apart h = unfold change in cc
  walk-change-Apart l (a ∷ []) (b ∷ q) (dir es) t' apart h =
      let (es', made, e) = in_dir-eq-ok (f a es) t' (unfold change in h) in
      elim (Bool-cases (str_eq a b)) [
        | inl same ↦ absurd (apart same)
        | inr differ ↦ ground (arith, e, l.others a b es es' made differ)
      ]
  walk-change-Apart l (a ∷ c ∷ p) (b ∷ q) (dir es) t' apart h =
      let d = change-Deeper f a c p es t' h in
      elim (Bool-cases (str_eq a b)) [
        | inl same ↦ ground (
          arith,
          d.result,
          d.was,
          str_eq_iff a b,
          child-put_child a b d.new es,
          walk-change-Apart l (c ∷ p) q d.old d.new (apart same) d.changed,
        )
        | inr differ ↦ ground (arith, d.result, child-put_child a b d.new es)
      ]

-- the later of two writes under one name stands
pub put_child-put_child :
    (name : Bytes) (m n : Node) (es : Entries)
    → put_child name n (put_child name m es) ≡ put_child name n es
unfolding put_child
put_child-put_child name m n end = ground (arith, str_eq_refl name)
put_child-put_child name m n (entry other old rest) =
    ground (arith, put_child-put_child name m n rest)
