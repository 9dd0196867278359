-- ===== src/Inode/Tests.antt =====
-- Runs of the inode table, and its theorems at concrete inputs (crates/openfs-fuse/src/inode.rs).
use open_fs.Prelude.{◌≡◌, refl, true, false, some, list_beq, nat_eq, list_eq}
use open_fs.Prelude.Map
use open_fs.Prelude.Text.{Str, text, starts_with, ends_with, pop}
use open_fs.Inode
use open_fs.Inode.{
  Process, InodeTable, normalize_path, update_attr, get_or_create, get_ino, get_path, remove,
  create_symlink, alloc_virtual_ino, directory, file, symlink, resolve_child, is_virtual,
}
use open_fs.Inode.Table.{IsValid}
use open_fs.Inode.Steps.{Reachable, start, next, created, Reachable-IsValid}

program : Unit {0}
unfolding Inode.new normalize_path update_attr get_or_create get_ino get_path remove create_symlink
    directory file symlink resolve_child is_virtual alloc_virtual_ino list_beq starts_with ends_with
    pop Map.get Map.insert Map.remove
program = tt

abbrev p : Process
p = record { now = 7; process_uid = 501; process_gid = 20 }

abbrev a : Str
a = text "/docs/"

abbrev t0 : InodeTable
t0 = Inode.new p

abbrev t1 : InodeTable
t1 = (get_or_create p a true 0 t0).0

abbrev t2 : InodeTable
t2 = (get_or_create p (text "docs/a.txt") false 1000 t1).0

reach1 : Reachable p t1
reach1 = next start (created p a true 0 t0)

reach2 : Reachable p t2
reach2 = next reach1 (created p (text "docs/a.txt") false 1000 t1)

numbers : (get_ino (text "/docs") t2 ≡ some 2) × (get_path 3 t2 ≡ some (text "/docs/a.txt"))
unfolding program
numbers = (refl, refl)

child : resolve_child 2 (text "b") t2 ≡ some (text "/docs/b")
unfolding program
child = refl

docs_number : get_ino a t2 ≡ some 2
unfolding program
docs_number = refl

docs_path : get_path 2 t2 ≡ some (text "/docs")
unfolding program
docs_path = refl

virtual : is_virtual (alloc_virtual_ino t2).1 ≡ true
unfolding program
virtual = refl

Reachable-IsValid_example : IsValid t2
Reachable-IsValid_example = Reachable-IsValid reach2
