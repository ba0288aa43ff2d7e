-- ===== src/Dbms/Edited.antt =====
-- What a change of the file system at one path does to all others: the facts by which the proofs
-- about src/dbms go.
use mathlib.Core.Path.{subst}
use ds_lab_assignment.Prelude.{◌≡◌, refl, sym, ◌∙◌, [], ◌∷◌, ◌++◌, Option, Bytes, arith}
use ds_lab_assignment.Dbms.Fs.{
  Fs, Node, dir, Entries, ok, FilePath, components, found, walk, Change, change,
}
use ds_lab_assignment.Dbms.Fs.Laws.{Apart, IsLocal, Leaves, walk-change_self, walk-change-Apart}
use ds_lab_assignment.Dbms.Fs.Made.{walk-change_above, change_succeeds, walk-change_parent}
use ds_lab_assignment.Dbms.Util.{changed}
use ds_lab_assignment.Dbms.Remove.Laws.{NoFaults}

-- From `fs` to `fs'` only what stands at the path `p`, and below it, has changed: now it is `o`.
pub record Edited (fs fs' : Fs) (p : FilePath) (o : Option Node) : Type 0 where
  pub faults : fs'.faulty ≡ fs.faulty
  pub place : fs'.place ≡ fs.place
  pub here : walk p fs'.root ≡ found o
  pub apart : (q : FilePath) → Apart p q → walk q fs'.root ≡ walk q fs.root
  pub above :
      (q rest : FilePath) (next : Bytes) (es : Entries)
      → p ≡ q ++ next ∷ rest
      → walk q fs.root ≡ ok (dir es)
      → (es' : Entries) × (walk q fs'.root ≡ ok (dir es'))

pub Edited-trans :
    {a b c : Fs} {p : FilePath} {o o' : Option Node}
    → Edited a b p o
    → Edited b c p o'
    → Edited a c p o'
Edited-trans f g = record {
  faults = g.faults ∙ f.faults;
  place = g.place ∙ f.place;
  here = g.here;
  apart = λ q h. g.apart q h ∙ f.apart q h;
  above = λ q rest next es e w.
      let (es', w') = f.above q rest next es e w in g.above q rest next es' e w';
}

-- a change that was made
pub change-Edited :
    {f : Change} {o : Option Node} (fs : Fs) (p : FilePath) (t : Node)
    → IsLocal f
    → Leaves o f
    → change f p fs.root ≡ ok t
    → Edited fs (record fs { root = t }) p o
change-Edited {f} fs p t l s h = record {
  faults = refl;
  place = refl;
  here = walk-change_self s p fs.root t h;
  apart = λ q a. walk-change-Apart l p q fs.root t a h;
  above = λ q rest next es e w. walk-change_above f q rest next fs.root t es w (rw e at h);
}

-- A change whose directory is there is made.
pub changed-Edited :
    {f : Change} {o : Option Node} (fs : Fs) (path : Bytes) (p : FilePath) (name : Bytes)
    (es es' : Entries)
    → IsLocal f
    → Leaves o f
    → components path ≡ p ++ name ∷ []
    → walk p fs.root ≡ ok (dir es)
    → f name es ≡ ok es'
    → (fs' : Fs) × (changed fs f path ≡ ok fs') × Edited fs fs' (p ++ name ∷ []) o
unfolding changed
changed-Edited {f} fs path p name es es' l s c w made =
    let (t, h) = change_succeeds f p name fs.root es es' w made in
    (record fs { root = t }, ground (arith, c, h), change-Edited fs (p ++ name ∷ []) t l s h)

-- its directory has the change and no other
pub changed-parent :
    (f : Change) (fs fs' : Fs) (path : Bytes) (p : FilePath) (name : Bytes) (es es' : Entries)
    → components path ≡ p ++ name ∷ []
    → walk p fs.root ≡ ok (dir es)
    → f name es ≡ ok es'
    → changed fs f path ≡ ok fs'
    → walk p fs'.root ≡ ok (dir es')
unfolding changed
changed-parent f fs fs' path p name es es' c w made h =
    let (t, done) = change_succeeds f p name fs.root es es' w made in
    ground (arith, c, done, walk-change_parent f p name fs.root t es es' w made done)

pub NoFaults-Edited :
    {fs fs' : Fs} {p : FilePath} {o : Option Node}
    → Edited fs fs' p o
    → NoFaults fs.faulty
    → NoFaults fs'.faulty
NoFaults-Edited e sound = subst NoFaults (sym e.faults) sound
