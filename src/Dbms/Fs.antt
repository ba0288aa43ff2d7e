-- ===== src/Dbms/Fs.antt =====
-- The part of POSIX that src/dbms calls: a tree of directories and files below the working directory,
-- and path names. POSIX leaves the order open in which `readdir` lists a directory: here an entry keeps
-- its place among the others as long as it is there, and where a new one comes is a parameter. "." and
-- ".." are left out. A path with a ".." in it is outside this model: no function builds one but from a
-- username that holds a slash.
pub mod Laws
pub mod Made
use ds_lab_assignment.Prelude.{
  ℕ, zero, suc, ◌==◌, if◌then◌else◌, Bool, true, false, List, [], ◌∷◌, ◌++◌, Option, none, some,
  Bytes, str_eq,
}
use ds_lab_assignment.Util.Types.{Entry, Mode}

-- What a file holds: nothing, or the image of the struct that `write_entry` wrote.
pub data FileData : Type 0 where
  blank : FileData
  image : Entry → FileData

mutual
  pub data Node : Type 0 where
    file : FileData → Node
    dir : Entries → Node

  pub data Entries : Type 0 where
    end : Entries
    entry : Bytes → Node → Entries → Entries

-- The values of `errno` that calls leave; `eio` stands for any failure of the system.
pub data Errno : Type 0 where
  enoent enotdir eisdir eexist enotempty eio : Errno

pub data Result {ℓ} (A : Type ℓ) : Type ℓ where
  ok : A → Result A
  err : Errno → Result A

pub data Syscall : Type 0 where
  open_dir make_dir read_entry write_entry remove_entry : Syscall
  open_entry : Mode → Syscall

-- How many of the names that a directory lists come before a new one.
abbrev pub Place : Type 0
Place = Bytes → List Bytes → ℕ

-- The tree, which calls on which path fail by an error of the system, and where directories list new
-- names.
pub record Fs : Type 0 where
  pub root : Node
  pub faulty : Syscall → Bytes → Bool
  pub place : Place

abbrev pub FilePath : Type 0
FilePath = List Bytes

-- A path name is cut at its slashes; empty pieces do not count.
abbrev pub close_piece : Bytes → FilePath → FilePath
close_piece [] p = p
close_piece (c ∷ piece) p = (c ∷ piece) ∷ p

unfoldable pub split_from : Bytes → Bytes → FilePath
split_from piece [] = close_piece piece []
split_from piece (c ∷ s) = elim (c == b'/') [
  | true ↦ close_piece piece (split_from [] s)
  | false ↦ split_from (piece ++ c ∷ []) s
]

unfoldable pub components : Bytes → FilePath
unfolding split_from
components s = split_from [] s

unfoldable pub child : Bytes → Entries → Option Node
child name end = none
child name (entry other node rest) = if str_eq other name then some node else child name rest

unfoldable pub names : Entries → List Bytes
names end = []
names (entry name node rest) = name ∷ names rest

-- a new entry behind so many others, or behind all
unfoldable pub insert_child : ℕ → Bytes → Node → Entries → Entries
insert_child zero name node es = entry name node es
insert_child (suc n) name node end = entry name node end
insert_child (suc n) name node (entry other old rest) =
    entry other old (insert_child n name node rest)

-- a new entry where the system lists it
abbrev pub insert_new : Place → Bytes → Node → Entries → Entries
insert_new place name node es = insert_child (place name (names es)) name node es

-- an entry given anew where it stands
unfoldable pub put_child : Bytes → Node → Entries → Entries
put_child name node end = entry name node end
put_child name node (entry other old rest) =
    if str_eq other name then entry other node rest else entry other old (put_child name node rest)

unfoldable pub drop_child : Bytes → Entries → Entries
drop_child name end = end
drop_child name (entry other node rest) =
    let others = drop_child name rest in
    if str_eq other name then others else entry other node others

abbrev pub found : Option Node → Result Node
found none = err enoent
found (some node) = ok node

unfoldable pub walk : FilePath → Node → Result Node
walk [] node = ok node
walk (name ∷ p) (file d) = err enotdir
walk (name ∷ p) (dir es) = elim (child name es) [ none ↦ err enoent | some node ↦ walk p node ]

-- One change of a directory's entries, at a name.
abbrev pub Change : Type 0
Change = Bytes → Entries → Result Entries

abbrev pub in_dir : Result Entries → Result Node
in_dir (ok es) = ok (dir es)
in_dir (err e) = err e

abbrev pub back_in : Bytes → Entries → Result Node → Result Node
back_in name es (ok node) = ok (dir (put_child name node es))
back_in name es (err e) = err e

-- The tree with a change made in the directory that holds the last name of the path.
unfoldable pub change : Change → FilePath → Node → Result Node
change f [] node = err eexist
change f (name ∷ p) (file d) = err enotdir
change f (name ∷ []) (dir es) = in_dir (f name es)
change f (name ∷ next ∷ p) (dir es) = elim (child name es) [
  | none ↦ err enoent
  | some node ↦ back_in name es (change f (next ∷ p) node)
]

-- A new file or directory: `mkdir`, and `open` with O_CREAT | O_EXCL.
unfoldable pub create : Place → Node → Change
create place node name es = elim (child name es) [
  | none ↦ ok (insert_new place name node es)
  | some _ ↦ err eexist
]

-- New content for a file that is there: O_TRUNC, and `write`.
unfoldable pub rewrite : FileData → Change
rewrite d name es = elim (child name es) [
  | none ↦ err enoent
  | some (file _) ↦ ok (put_child name (file d) es)
  | some (dir _) ↦ err eisdir
]

-- What is left of an entry after a removal that may have stopped half way.
unfoldable pub settle : Option Node → Change
settle none name es = ok (drop_child name es)
settle (some node) name es = ok (put_child name node es)
