-- ===== src/Dbms/Fs/Made.antt =====
-- Changes of the tree of `Dbms.Fs` that can be made, and the directories above them.
use ds_lab_assignment.Prelude.{
  ◌≡◌, ap, [], ◌∷◌, ◌++◌, some, inl, inr, Option-cases, Bytes, str_eq_refl, arith,
}
use ds_lab_assignment.Dbms.Fs.{
  FilePath, Node, file, dir, Entries, ok, child, put_child, walk, Change, change,
}
use ds_lab_assignment.Dbms.Fs.Laws.{child-put_child, in_dir-eq-ok, change-Deeper}

in_dir-dir :
    (f : Change) (a : Bytes) (p : FilePath) (es : Entries) (t' : Node)
    → change f (a ∷ p) (dir es) ≡ ok t'
    → (es' : Entries) × (t' ≡ dir es')
in_dir-dir f a [] es t' h =
    let (es', made, e) = in_dir-eq-ok (f a es) t' (unfold change in h) in (es', e)
in_dir-dir f a (b ∷ p) es t' h = let d = change-Deeper f a b p es t' h in (_, d.result)

module _ (f : Change) where
  walk-change_here :
      (next : Bytes) (q : FilePath) (t t' : Node) (es : Entries)
      → t ≡ dir es
      → change f (next ∷ q) t ≡ ok t'
      → (es' : Entries) × (t' ≡ dir es')
  walk-change_here next q t t' es w h = in_dir-dir f next q es t' (rw w at h)

  -- A directory above the changed path is still one.
  pub walk-change_above :
      (p q : FilePath) (next : Bytes) (t t' : Node) (es : Entries)
      → walk p t ≡ ok (dir es)
      → change f (p ++ next ∷ q) t ≡ ok t'
      → (es' : Entries) × (walk p t' ≡ ok (dir es'))
  unfolding walk
  walk-change_above [] q next t t' es w h =
      let (es', e) = walk-change_here next q t t' es (cc) h in (es', ap ok e)
  walk-change_above (a ∷ p) q next (file d) t' es w h = absurd (cc)
  walk-change_above (a ∷ []) q next (dir es0) t' es w h =
      let d = change-Deeper f a next q es0 t' h in
      let (es', e) = walk-change_here next q d.old d.new es (ground (arith, d.was)) d.changed in
      (es', ground (arith, d.result, child-put_child a a d.new es0, str_eq_refl a))
  walk-change_above (a ∷ b ∷ p) q next (dir es0) t' es w h =
      let d = change-Deeper f a b (p ++ next ∷ q) es0 t' h in
      let (es', e) =
        walk-change_above (b ∷ p) q next d.old d.new es (ground (arith, d.was)) d.changed in
      (es', ground (arith, d.result, child-put_child a a d.new es0, str_eq_refl a))

  change_deeper :
      (a b : Bytes) (p : FilePath) (es : Entries) (n n' : Node)
      → child a es ≡ some n
      → change f (b ∷ p) n ≡ ok n'
      → change f (a ∷ b ∷ p) (dir es) ≡ ok (dir (put_child a n' es))
  unfolding change
  change_deeper a b p es n n' was made = ground arith

  -- The change is made if the path's directory is there and its entries can be changed.
  pub change_succeeds :
      (p : FilePath) (name : Bytes) (t : Node) (es es' : Entries)
      → walk p t ≡ ok (dir es)
      → f name es ≡ ok es'
      → (t' : Node) × (change f (p ++ name ∷ []) t ≡ ok t')
  unfolding walk
  change_succeeds [] name (file d) es es' w h = absurd (cc)
  change_succeeds [] name (dir es0) es es' w h = (dir es', unfold change in ground arith)
  change_succeeds (a ∷ p) name (file d) es es' w h = absurd (cc)
  change_succeeds (a ∷ []) name (dir es0) es es' w h = elim (Option-cases (child a es0)) [
    | inl gone ↦ absurd (ground arith)
    | inr (n, was) ↦
        let (n', made) = change_succeeds [] name n es es' (ground arith) h in
        (_, change_deeper a name [] es0 n n' was made)
  ]
  change_succeeds (a ∷ b ∷ p) name (dir es0) es es' w h = elim (Option-cases (child a es0)) [
    | inl gone ↦ absurd (ground arith)
    | inr (n, was) ↦
        let (n', made) = change_succeeds (b ∷ p) name n es es' (ground arith) h in
        (_, change_deeper a b (p ++ name ∷ []) es0 n n' was made)
  ]

  -- The directory that holds the changed entry has just that change.
  pub walk-change_parent :
      (p : FilePath) (name : Bytes) (t t' : Node) (es es' : Entries)
      → walk p t ≡ ok (dir es)
      → f name es ≡ ok es'
      → change f (p ++ name ∷ []) t ≡ ok t'
      → walk p t' ≡ ok (dir es')
  unfolding walk
  walk-change_parent [] name (file d) t' es es' w made h = absurd (cc)
  walk-change_parent [] name (dir es0) t' es es' w made h = unfold change in ground arith
  walk-change_parent (a ∷ p) name (file d) t' es es' w made h = absurd (cc)
  walk-change_parent (a ∷ []) name (dir es0) t' es es' w made h =
      let d = change-Deeper f a name [] es0 t' h in
      ground (
        arith,
        d.was,
        d.result,
        child-put_child a a d.new es0,
        str_eq_refl a,
        walk-change_parent [] name d.old d.new es es' (ground (arith, d.was)) made d.changed,
      )
  walk-change_parent (a ∷ b ∷ p) name (dir es0) t' es es' w made h =
      let d = change-Deeper f a b (p ++ name ∷ []) es0 t' h in
      ground (
        arith,
        d.was,
        d.result,
        child-put_child a a d.new es0,
        str_eq_refl a,
        walk-change_parent (b ∷ p) name d.old d.new es es' (ground (arith, d.was)) made d.changed,
      )
