-- ===== src/Dbms/InPlace.antt =====
-- Every struct in the database of src/dbms stands at the path that `db_io_op_usr_ent` builds for it, and
-- the changes of the tree that keep this so, whichever calls fail.
pub mod Calls
pub mod Removal
use ds_lab_assignment.Prelude.{
  ℕ, zero, suc, ◌≡◌, refl, sym, ◌∙◌, ap, true, false, List, [], ◌∷◌, ◌++◌, append_assoc, append-nil,
  Option, none, some, Bytes, str_eq, str_eq_iff, Bool-cases, Option-cases, inl, inr, if_elim,
  if◌then◌else◌, arith,
}
use mathlib.Core.Path.{subst}
use ds_lab_assignment.Util.Types.{Entry}
use ds_lab_assignment.Dbms.Fs.{
  Fs, FileData, blank, image, Node, file, dir, Entries, end, entry, Result, ok, err, FilePath,
  components, child, put_child, insert_child, Place, names, drop_child, walk, Change, change,
  create, rewrite, settle,
}
use ds_lab_assignment.Dbms.Fs.Laws.{create-eq-ok, in_dir-eq-ok, Deeper, change-Deeper}
use ds_lab_assignment.Dbms.Paths.{entry_path}

abbrev pub PlacedData : FilePath → FileData → Type 0
PlacedData p blank = Unit
PlacedData p (image e) = components (entry_path e) ≡ p

-- what stands at the path and below it
abbrev mutual
  pub Placed : FilePath → Node → Type 0
  Placed p (file d) = PlacedData p d
  Placed p (dir es) = PlacedIn p es

  pub PlacedIn : FilePath → Entries → Type 0
  PlacedIn p end = Unit
  PlacedIn p (entry name node rest) = Placed (p ++ name ∷ []) node × PlacedIn p rest

pub record InPlace (fs : Fs) : Type 0 where
  pub placed : Placed [] fs.root

-- A node found below a placed one is placed.
pub child-Placed :
    (name : Bytes) (p : FilePath) (es : Entries) (n : Node)
    → PlacedIn p es
    → child name es ≡ some n
    → Placed (p ++ name ∷ []) n
unfolding child
child-Placed name p end n h c = cc
child-Placed name p (entry other node rest) n (here, h) c = elim (Bool-cases (str_eq other name)) [
  | inl same ↦
      let found : node ≡ n = ground (arith, same) in
      let named : other ≡ name = (str_eq_iff other name).0 same in
      subst (λ m. Placed (p ++ name ∷ []) m) found
        (subst (λ s. Placed (p ++ s ∷ []) node) named here)
  | inr differ ↦ child-Placed name p rest n h (ground (arith, differ))
]

pub walk-Placed : (q p : FilePath) (t n : Node) → Placed p t → walk q t ≡ ok n → Placed (p ++ q) n
unfolding walk
walk-Placed [] p t n h w =
    let same : t ≡ n = cc in subst (λ r. Placed r n) (sym (append-nil p)) (subst (Placed p) same h)
walk-Placed (a ∷ q) p (file d) n h w = cc
walk-Placed (a ∷ q) p (dir es) n h w = elim (Option-cases (child a es)) [
  | inl gone ↦ absurd (ground (arith, gone))
  | inr (m, here) ↦
      subst (λ r. Placed r n) (append_assoc p (a ∷ []) q)
        (walk-Placed q (p ++ a ∷ []) m n (child-Placed a p es m h here) (ground (arith, here)))
]

pub put_child-Placed :
    (name : Bytes) (p : FilePath) (n : Node) (es : Entries)
    → Placed (p ++ name ∷ []) n
    → PlacedIn p es
    → PlacedIn p (put_child name n es)
unfolding put_child
put_child-Placed name p n end here h = (here, tt)
put_child-Placed name p n (entry other node rest) here (there, h) =
    if_elim (PlacedIn p) (str_eq other name)
      (λ same. (subst (λ s. Placed (p ++ s ∷ []) n) (sym ((str_eq_iff other name).0 same)) here, h))
      λ _. (there, put_child-Placed name p n rest here h)

insert_child-Placed :
    (k : ℕ) (name : Bytes) (p : FilePath) (n : Node) (es : Entries)
    → Placed (p ++ name ∷ []) n
    → PlacedIn p es
    → PlacedIn p (insert_child k name n es)
unfolding insert_child
insert_child-Placed zero name p n es here h = (here, h)
insert_child-Placed (suc k) name p n end here h = (here, tt)
insert_child-Placed (suc k) name p n (entry other node rest) here (there, h) =
    (there, insert_child-Placed k name p n rest here h)

drop_child-Placed :
    (name : Bytes) (p : FilePath) (es : Entries) → PlacedIn p es → PlacedIn p (drop_child name es)
unfolding drop_child
drop_child-Placed name p end h = tt
drop_child-Placed name p (entry other node rest) (there, h) =
    if_elim (PlacedIn p) (str_eq other name) (λ _. drop_child-Placed name p rest h)
      λ _. (there, drop_child-Placed name p rest h)

-- A change at this path keeps all structs in place.
pub record KeepsAt (f : Change) (q : FilePath) : Type 0 where
  pub at :
      (p : FilePath) (name : Bytes) (es es' : Entries)
      → p ++ name ∷ [] ≡ q
      → PlacedIn p es
      → f name es ≡ ok es'
      → PlacedIn p es'

pub change-Placed :
    (f : Change) (q p : FilePath) (t t' : Node)
    → KeepsAt f (p ++ q)
    → Placed p t
    → change f q t ≡ ok t'
    → Placed p t'
unfolding change
change-Placed f [] p t t' k h c = cc
change-Placed f (a ∷ q) p (file d) t' k h c = unfold change in cc
change-Placed f (a ∷ []) p (dir es) t' k h c =
    let (es', made, e) = in_dir-eq-ok (f a es) t' (unfold change in c) in
    subst (Placed p) (sym e) (k.at p a es es' refl h made)
change-Placed f (a ∷ b ∷ q) p (dir es) t' k h c =
    let d = change-Deeper f a b q es t' c in
    let below =
      change-Placed f (b ∷ q) (p ++ a ∷ []) d.old d.new
        (subst (KeepsAt f) (sym (append_assoc p (a ∷ []) (b ∷ q))) k)
        (child-Placed a p es d.old h d.was) d.changed in
    subst (Placed p) (sym d.result) (put_child-Placed a p d.new es below h)

-- A directory or an empty file is created, a file is emptied, and a struct is written at its own path.
pub create-KeepsAt :
    (place : Place) (n : Node) (q : FilePath) → Placed q n → KeepsAt (create place n) q
create-KeepsAt place n q here = record {
  at = λ p name es es' same h made.
      let (free, e) = create-eq-ok place n name es es' made in
      subst (PlacedIn p) e (
        insert_child-Placed (place name (names es)) name p n es
          (subst (λ r. Placed r n) (sym same) here) h);
}

pub rewrite-KeepsAt : (d : FileData) (q : FilePath) → PlacedData q d → KeepsAt (rewrite d) q
unfolding rewrite
rewrite-KeepsAt d q here = record {
  at = λ p name es es' same h made.
      let e : put_child name (file d) es ≡ es' = ground (arith, made) in
      subst (PlacedIn p) e
        (put_child-Placed name p (file d) es (subst (λ r. PlacedData r d) (sym same) here) h);
}

pub settle-KeepsAt :
    (left : Option Node) (q : FilePath)
    → ((n : Node) → left ≡ some n → Placed q n)
    → KeepsAt (settle left) q
unfolding settle
settle-KeepsAt none q here = record {
  at = λ p name es es' same h made.
      let e : drop_child name es ≡ es' = cc in subst (PlacedIn p) e (drop_child-Placed name p es h);
}
settle-KeepsAt (some n) q here = record {
  at = λ p name es es' same h made.
      let e : put_child name n es ≡ es' = cc in
      subst (PlacedIn p) e
        (put_child-Placed name p n es (subst (λ r. Placed r n) (sym same) (here n refl)) h);
}
