-- ===== src/Namespace/Tree.antt =====
-- The invariant of the namespace (beryl-metadata/src/raft/state_machine/namespace.rs): names lead
-- from directories to inodes of the same mount, and no inode has two names.
pub mod Remaining
pub mod Changes
pub mod Names
pub mod Commands
pub mod Walks
pub mod Directories
pub mod Removals
pub mod Moves
pub mod Renames
pub mod Files
pub mod Creates
pub mod Growth
pub mod Replays
pub mod Histories
pub mod Deletes
pub mod Cycles
use vecton.Prelude.{
  ℕ, ◌≡◌, ◌<◌, ◌≤◌, [], arith, Option, none, some, String, Map, Unique, nat_eq, string_eq, pair_eq,
}
use vecton.Prelude.Maps.{get}
use vecton.Prelude.Result.{ok}
use vecton.Types.Values.{InodeId, MountId}
use vecton.Inode.{Inode, FileData, file, dir, validate}
use vecton.Inode.Advances.{Advances}
use vecton.Storage.{Store, MountEntry, DetachedRoot}

abbrev pub Inodes : Type 0
Inodes = Map InodeId Inode

abbrev pub Dentries : Type 0
Dentries = Map (InodeId × String) InodeId

-- An inode of a mount, and a directory of a mount.
pub record Has (inodes : Inodes) (k : InodeId) (m : MountId) : Type 0 where
  pub inode : Inode
  pub found : get k inodes ≡ some inode
  pub mount : inode.mount_id ≡ m

pub record HasDir (inodes : Inodes) (k : InodeId) (m : MountId) : Type 0 where
  pub inode : Inode
  pub found : get k inodes ≡ some inode
  pub kind : inode.kind ≡ dir
  pub mount : inode.mount_id ≡ m

abbrev pub Unnamed : Dentries → InodeId → Type 0
Unnamed dentries c = (p : InodeId) (n : String) → get (p, n) dentries ≡ some c → ⊥

abbrev pub Childless : Dentries → InodeId → Type 0
Childless dentries c = (n : String) → get (c, n) dentries ≡ none

-- The root of a mount is a directory without a name.
pub record IsRoot (inodes : Inodes) (dentries : Dentries) (detached : Map InodeId DetachedRoot)
    (m : MountId) (e : MountEntry) : Type 0 where
  pub mount : e.mount_id ≡ m
  pub directory : HasDir inodes e.root_inode_id m
  pub unnamed : Unnamed dentries e.root_inode_id
  pub attached : get e.root_inode_id detached ≡ none

pub record Joins (inodes : Inodes) (detached : Map InodeId DetachedRoot) (p c : InodeId)
    : Type 0 where
  pub mount : MountId
  pub parent : HasDir inodes p mount
  pub child : Has inodes c mount
  pub attached : get c detached ≡ none

-- The inodes of an earlier store, below its allocator.
pub record Past : Type 0 where
  pub inodes : Inodes
  pub next : InodeId
  pub bounded : (k : InodeId) (i : Inode) → get k inodes ≡ some i → k < next

-- What an inode is at a later time: a directory is one, a file is one that has moved forward, and
-- the mount is the same.
pub record Remains (o i : Inode) : Type 0 where
  pub directory : o.kind ≡ dir → i.kind ≡ dir
  pub file_advances :
      (f : FileData) → o.kind ≡ file f → (g : FileData) × (i.kind ≡ file g) × Advances f g
  pub mount : i.mount_id ≡ o.mount_id

-- What has become of the inodes of an earlier store: they remain or are gone, and the identities
-- that were free below the allocator are free.
pub record Steady (past : Past) (inodes : Inodes) (next : InodeId) : Type 0 where
  pub grows : past.next ≤ next
  pub kept :
      (k : InodeId) (o i : Inode) → get k past.inodes ≡ some o → get k inodes ≡ some i → Remains o i
  pub gone : (k : InodeId) → k < past.next → get k past.inodes ≡ none → get k inodes ≡ none

pub record IsForest (past : Past) (inodes : Inodes) (dentries : Dentries)
    (detached : Map InodeId DetachedRoot) (mounts : Map MountId MountEntry)
    (next_inode_id : Option InodeId) : Type 0 where
  pub next : InodeId
  pub steady : Steady past inodes next
  pub next_is : next_inode_id ≡ some next
  pub unique : Unique inodes
  pub names_unique : Unique dentries
  pub key : (k : InodeId) (i : Inode) → get k inodes ≡ some i → (i.inode_id ≡ k) × (k < next)
  pub valid :
      (k : InodeId) (i : Inode) (f : FileData)
      → get k inodes ≡ some i
      → i.kind ≡ file f
      → validate k f ≡ ok tt
  pub entry :
      (p : InodeId) (n : String) (c : InodeId)
      → get (p, n) dentries ≡ some c
      → Joins inodes detached p c
  pub single :
      (p : InodeId) (n : String) (q : InodeId) (n' : String) (c : InodeId)
      → get (p, n) dentries ≡ some c
      → get (q, n') dentries ≡ some c
      → ◌≡◌ {A = InodeId × String} (p, n) (q, n')
  pub detached_root :
      (k : InodeId) (r : DetachedRoot) → get k detached ≡ some r → HasDir inodes k r.mount_id
  pub mounted :
      (m : MountId) (e : MountEntry) → get m mounts ≡ some e → IsRoot inodes dentries detached m e

-- The namespace of a store, with what has become of the inodes of an earlier one.
abbrev pub Since : Past → Store → Type 0
Since past s = IsForest past s.inodes s.dentries s.detached_roots s.mounts s.next_inode_id

pub nothing_bounded : (k : InodeId) (i : Inode) → ◌≡◌ {A = Option Inode} (get k []) (some i) → k < 0
unfolding get
nothing_bounded k i g = absurd (ground (arith, g))

-- Before all inodes.
abbrev pub nothing_past : Past
nothing_past = record { inodes = []; next = 0; bounded = nothing_bounded }

-- The namespace of a store.
abbrev pub IsNamespace : Store → Type 0
IsNamespace s = Since nothing_past s
