-- ===== src/Namespace/Tree/Renames.antt =====
-- A Rename keeps the invariant of the namespace, and which names it changes
-- (beryl-metadata/src/raft/state_machine/namespace.rs).
use vecton.Prelude.{
  Unique, ℕ, ◌≡◌, refl, sym, subst, ap, ◌∙◌, false, Option, none, some, String, nat_eq, string_eq,
  pair_eq, inl, inr, arith, Bool-cases, eqb, eqb_iff, if◌then◌else◌, pair_eqb, pair_eqb_iff,
}
use vecton.Prelude.Maps.{get, insert, remove, get-insert, get-remove, remove-Unique}
use vecton.Prelude.Result.{ok, >>=-eq-ok, ok_inj}
use vecton.Types.Values.{InodeId}
use vecton.Inode.{Inode}
use vecton.Storage.{Store}
use vecton.Storage.Batches.{rename_atomic, RenameAtomicUpdate}
use vecton.Namespace.Rename.{RenameRequest, apply_rename, prepare_rename}
use vecton.Namespace.Tree.{Past, Dentries, HasDir, IsNamespace, Since}
use vecton.Namespace.Tree.Removals.{shed, parent_apart}
use vecton.Namespace.Tree.Moves.{
  Aims, Plan, onto_nothing, onto_itself, onto_other, Touched, prepare_rename-Plan, move, free_place,
  destination, put_parents,
}

abbrev src_place : RenameRequest → InodeId × String
src_place q = (q.src_parent_inode_id, q.src_name)

abbrev dst_place : RenameRequest → InodeId × String
dst_place q = (q.dst_parent_inode_id, q.dst_name)

module _ {past : Past} (s : Store) (t : Since past s) (q : RenameRequest) (aims : Aims s q)
    (c : InodeId) (named : get (src_place q) s.dentries ≡ some c) (now : ℕ) where
  -- The destination is a directory of the mount of the source.
  dst_directory :
      (x : Option Inode × Option Inode)
      → Touched s q now x
      → HasDir s.inodes q.dst_parent_inode_id
          (t.entry q.src_parent_inode_id q.src_name c named).mount
  dst_directory x touches =
      let (o, i, found, found') = destination s q now x touches in
      let (kind, mount) = aims.directory o i found found' in
      let j = t.entry q.src_parent_inode_id q.src_name c named in
      let same : o ≡ j.parent.inode = ground (arith, found, j.parent.found) in
      record {
        inode = i;
        found = found';
        kind = kind;
        mount = mount ∙ ap (λ (z : Inode). z.mount_id) same ∙ j.parent.mount;
      }

  rename_atomic-Since :
      (u : RenameAtomicUpdate) (r : ℕ) → Plan s q now c u → Since past (rename_atomic s u r)
  unfolding rename_atomic
  rename_atomic-Since _ r (onto_nothing x nothing touches) =
      let j = t.entry q.src_parent_inode_id q.src_name c named in
      put_parents s q now x
        (move t (src_place q) q.dst_parent_inode_id q.dst_name c named
          (free_place t (src_place q) (dst_place q) c named (inl nothing))
          (record {
            mount = j.mount;
            parent = dst_directory x touches;
            child = j.child;
            attached = j.attached;
          }))
        (λ i g. g) (λ i g. g) touches
  rename_atomic-Since _ r (onto_itself same) =
      move t (src_place q) q.dst_parent_inode_id q.dst_name c named
        (free_place t (src_place q) (dst_place q) c named (inr same))
        (t.entry q.dst_parent_inode_id q.dst_name c same)
  rename_atomic-Since _ r (onto_other d x taken other childless touches) =
      let t1 = shed t q.dst_parent_inode_id q.dst_name d taken childless in
      let apart : pair_eqb (dst_place q) (src_place q) ≡ false =
        elim (Bool-cases (pair_eqb (dst_place q) (src_place q))) [
          | inr no_hit ↦ no_hit
          | inl hit ↦
              let at =
                ap (λ z. get z s.dentries) ((pair_eqb_iff (dst_place q) (src_place q)).0 hit) in
              absurd (ground (arith, at, taken, named, other, eqb_iff c d))
        ] in
      let named' : get (src_place q) (remove (dst_place q) s.dentries) ≡ some c =
        get-remove (dst_place q) (src_place q) s.dentries t.names_unique ∙ rw apart named in
      let free : get (dst_place q) (remove (src_place q) (remove (dst_place q) s.dentries)) ≡ none =
        free_place t1 (src_place q) (dst_place q) c named' (
          inl (
            ground (
              arith,
              get-remove (dst_place q) (dst_place q) s.dentries t.names_unique,
              pair_eqb_iff (dst_place q) (dst_place q),
            ))) in
      let j = t.entry q.src_parent_inode_id q.src_name c named in
      let dst = dst_directory x touches in
      let src_stays : eqb d q.src_parent_inode_id ≡ false =
        elim (Bool-cases (eqb d q.src_parent_inode_id)) [
          | inr no_hit ↦ no_hit
          | inl hit ↦
              let at =
                ap (λ (k : InodeId). get (k, q.src_name) s.dentries)
                  ((eqb_iff d q.src_parent_inode_id).0 hit) in
              absurd (ground (arith, at, childless q.src_name, named))
        ] in
      let dst_stays = parent_apart t q.dst_parent_inode_id q.dst_name d taken childless in
      let stays : (k : InodeId) (i : Inode)
          → eqb d k ≡ false
          → get k s.inodes ≡ some i
          → get k (remove d s.inodes) ≡ some i =
        λ k i no_hit g. get-remove d k s.inodes t.unique ∙ rw no_hit g in
      put_parents s q now x
        (move t1 (src_place q) q.dst_parent_inode_id q.dst_name c named' free (record {
          mount = j.mount;
          parent = record {
            inode = dst.inode;
            found = stays q.dst_parent_inode_id dst.inode dst_stays dst.found;
            kind = dst.kind;
            mount = dst.mount;
          };
          child = record {
            inode = j.child.inode;
            found = stays c j.child.inode (ground (arith, other)) j.child.found;
            mount = j.child.mount;
          };
          attached = j.attached;
        }))
        (λ i g. stays q.src_parent_inode_id i src_stays g)
        (λ i g. stays q.dst_parent_inode_id i dst_stays g) touches

pub rename-Since :
    {past : Past} (s s' : Store) (q : RenameRequest) (now r : ℕ)
    → apply_rename s q now r ≡ ok s'
    → Aims s q
    → Since past s
    → Since past s'
unfolding apply_rename
rename-Since s s' q now r h aims t =
    let (u, prepared, h1) = >>=-eq-ok (prepare_rename s q now) _ h in
    let (named, plan) = prepare_rename-Plan s q now u prepared t in
    subst (Since _) (ok_inj h1)
      (rename_atomic-Since s t q aims q.expected_src_inode_id named now u r plan)

-- The directory map of the file system after a rename, as a function.
abbrev pub renamed :
    (InodeId × String → Option InodeId)
    → InodeId × String
    → InodeId × String
    → InodeId × String
    → Option InodeId
renamed names src dst place =
    if pair_eqb dst place then names src else if pair_eqb src place then none else names place

-- A move in a map, with or without the entry that it overwrites.
moved :
    (m : Dentries) (src dst place : InodeId × String) (c : InodeId)
    → Unique m
    → get src m ≡ some c
    → get place (insert dst c (remove src m)) ≡ renamed (λ x. get x m) src dst place
moved m src dst place c u named = elim (Bool-cases (pair_eqb dst place)) [
  | inl hit ↦ get-insert dst place c (remove src m) ∙ rw hit (sym named)
  | inr miss ↦ get-insert dst place c (remove src m) ∙ rw miss (get-remove src place m u)
]

moved_over :
    (m : Dentries) (src dst place : InodeId × String) (c : InodeId)
    → Unique m
    → get src m ≡ some c
    → get place (insert dst c (remove src (remove dst m))) ≡ renamed (λ x. get x m) src dst place
moved_over m src dst place c u named = elim (Bool-cases (pair_eqb dst place)) [
  | inl hit ↦ get-insert dst place c (remove src (remove dst m)) ∙ rw hit (sym named)
  | inr miss ↦
      let bare : get place (remove dst m) ≡ get place m = get-remove dst place m u ∙ rw miss refl in
      let gone : get place (remove src (remove dst m))
          ≡ (if pair_eqb src place then none else get place m) =
        get-remove src place (remove dst m) (remove-Unique dst m u)
        ∙ ap (λ (z : Option InodeId). if pair_eqb src place then none else z) bare in
      get-insert dst place c (remove src (remove dst m)) ∙ rw miss gone
]

-- A Rename that succeeds on a namespace moves one name: the destination leads where the source
-- led, the source is free unless it is the destination, and every other name leads where it did.
pub apply_rename-renamed :
    (s s' : Store) (q : RenameRequest) (now r : ℕ)
    → apply_rename s q now r ≡ ok s'
    → IsNamespace s
    → (place : InodeId × String)
    → get place s'.dentries ≡ renamed (λ x. get x s.dentries) (src_place q) (dst_place q) place
unfolding apply_rename rename_atomic
apply_rename-renamed s s' q now r h t place =
    let (u, prepared, h1) = >>=-eq-ok (prepare_rename s q now) _ h in
    let (named, plan) = prepare_rename-Plan s q now u prepared t in
    ap (λ (z : Store). get place z.dentries) (sym (ok_inj h1)) ∙ seen u named plan
  where
    seen :
        (u : RenameAtomicUpdate)
        → get (src_place q) s.dentries ≡ some q.expected_src_inode_id
        → Plan s q now q.expected_src_inode_id u
        → get place (rename_atomic s u r).dentries
          ≡ renamed (λ x. get x s.dentries) (src_place q) (dst_place q) place
    seen _ named (onto_nothing x _ _) =
        moved s.dentries (src_place q) (dst_place q) place q.expected_src_inode_id t.names_unique
          named
    seen _ named (onto_itself _) =
        moved s.dentries (src_place q) (dst_place q) place q.expected_src_inode_id t.names_unique
          named
    seen _ named (onto_other d x _ _ _ _) =
        moved_over s.dentries (src_place q) (dst_place q) place q.expected_src_inode_id
          t.names_unique named
