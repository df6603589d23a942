-- ===== src/Namespace/Tree/Names.antt =====
-- The changes of names and of the markers of detached roots
-- (beryl-metadata/src/raft/storage/transaction.rs).
use vecton.Prelude.{
  ◌≡◌, sym, subst, ap, ◌∙◌, Option, none, some, String, Map, nat_eq, string_eq, pair_eq, inl, inr,
  arith, Bool-cases, eqb, eqb_iff, pair_eqb, pair_eqb_iff, false,
}
use vecton.Prelude.Maps.{get, insert, remove, get-insert, get-remove, insert-Unique, remove-Unique}
use vecton.Types.Values.{InodeId, MountId}
use vecton.Storage.{MountEntry, DetachedRoot}
use vecton.Namespace.Tree.{Past, Inodes, Dentries, HasDir, Unnamed, Joins, IsForest}

module _ {past : Past} {inodes : Inodes} {dentries : Dentries} {detached : Map InodeId DetachedRoot}
    {mounts : Map MountId MountEntry} {next_inode_id : Option InodeId}
    (t : IsForest past inodes dentries detached mounts next_inode_id) where
  kept_name :
      (x : InodeId × String) (p : InodeId) (n : String) (c : InodeId)
      → get (p, n) (remove x dentries) ≡ some c
      → get (p, n) dentries ≡ some c
  kept_name x p n c g = ground (arith, get-remove x (p, n) dentries t.names_unique, g)

  -- The loss of a name.
  pub unname :
      (x : InodeId × String)
      → IsForest past inodes (remove x dentries) detached mounts next_inode_id
  unname x = record {
    next = t.next;
    steady = t.steady;
    next_is = t.next_is;
    unique = t.unique;
    names_unique = remove-Unique x dentries t.names_unique;
    key = t.key;
    valid = t.valid;
    entry = λ p n c g. t.entry p n c (kept_name x p n c g);
    single = λ p n q n' c g h. t.single p n q n' c (kept_name x p n c g) (kept_name x q n' c h);
    detached_root = t.detached_root;
    mounted = λ m e g.
        let r = t.mounted m e g in
        record {
          mount = r.mount;
          directory = r.directory;
          unnamed = λ p n h. r.unnamed p n (kept_name x p n e.root_inode_id h);
          attached = r.attached;
        };
  }

  -- An inode has no name once its name is lost.
  pub unname-Unnamed :
      (p : InodeId) (n : String) (c : InodeId)
      → get (p, n) dentries ≡ some c
      → Unnamed (remove (p, n) dentries) c
  unname-Unnamed p n c g q n' h =
      let old = kept_name (p, n) q n' c h in
      let same = t.single p n q n' c g old in
      absurd (
        ground (
          arith,
          get-remove (p, n) (q, n') dentries t.names_unique,
          (pair_eqb_iff (p, n) (q, n')).1 same,
          h,
        ))

  -- An inode with a name is not the root of a mount.
  pub named_no_root :
      (p : InodeId) (n : String) (c : InodeId)
      → get (p, n) dentries ≡ some c
      → (m : MountId) (e : MountEntry) → get m mounts ≡ some e
      → eqb e.root_inode_id c ≡ false
  named_no_root p n c g m e h = elim (Bool-cases (eqb e.root_inode_id c)) [
    | inr other ↦ other
    | inl hit ↦ absurd (
        (t.mounted m e h).unnamed p n
          (g ∙ ap (λ (x : InodeId). some x) (sym ((eqb_iff e.root_inode_id c).0 hit))))
  ]

  -- A new name for an inode that has none.
  pub name :
      (p : InodeId) (n : String) (c : InodeId)
      → get (p, n) dentries ≡ none
      → Unnamed dentries c
      → Joins inodes detached p c
      → ((m : MountId) (e : MountEntry) → get m mounts ≡ some e → eqb e.root_inode_id c ≡ false)
      → IsForest past inodes (insert (p, n) c dentries) detached mounts next_inode_id
  name p n c free unnamed joins roots = record {
    next = t.next;
    steady = t.steady;
    next_is = t.next_is;
    unique = t.unique;
    names_unique = insert-Unique (p, n) c dentries t.names_unique;
    key = t.key;
    valid = t.valid;
    entry = λ q n' d g. elim (Bool-cases (pair_eqb (p, n) (q, n'))) [
      | inl hit ↦
          let same = (pair_eqb_iff (p, n) (q, n')).0 hit in
          let at : c ≡ d = ground (arith, get-insert (p, n) (q, n') c dentries, hit, g) in
          subst (Joins inodes detached q) at
            (subst (λ z. Joins inodes detached z c) (ap (λ (z : InodeId × String). z.0) same) joins)
      | inr miss ↦ t.entry q n' d (ground (arith, get-insert (p, n) (q, n') c dentries, miss, g))
    ];
    single = λ q n' r n'' d g h. elim (Bool-cases (pair_eqb (p, n) (q, n'))) [
      | inl hit ↦ elim (Bool-cases (pair_eqb (p, n) (r, n''))) [
        | inl hit' ↦
            sym ((pair_eqb_iff (p, n) (q, n')).0 hit) ∙ (pair_eqb_iff (p, n) (r, n'')).0 hit'
        | inr miss' ↦
            let at : c ≡ d = ground (arith, get-insert (p, n) (q, n') c dentries, hit, g) in
            absurd
              (unnamed r n'' (ground (arith, get-insert (p, n) (r, n'') c dentries, miss', h, at)))
      ]
      | inr miss ↦ elim (Bool-cases (pair_eqb (p, n) (r, n''))) [
        | inl hit' ↦
            let at : c ≡ d = ground (arith, get-insert (p, n) (r, n'') c dentries, hit', h) in
            absurd
              (unnamed q n' (ground (arith, get-insert (p, n) (q, n') c dentries, miss, g, at)))
        | inr miss' ↦
            t.single q n' r n'' d (ground (arith, get-insert (p, n) (q, n') c dentries, miss, g))
              (ground (arith, get-insert (p, n) (r, n'') c dentries, miss', h))
      ]
    ];
    detached_root = t.detached_root;
    mounted = λ m e g.
        let r = t.mounted m e g in
        record {
          mount = r.mount;
          directory = r.directory;
          unnamed = λ q n' h. elim (Bool-cases (pair_eqb (p, n) (q, n'))) [
            | inl hit ↦ absurd (
                ground (
                  arith,
                  roots m e g,
                  eqb_iff e.root_inode_id c,
                  get-insert (p, n) (q, n') c dentries,
                  hit,
                  h,
                ))
            | inr miss ↦
                r.unnamed q n' (ground (arith, get-insert (p, n) (q, n') c dentries, miss, h))
          ];
          attached = r.attached;
        };
  }

  -- The marker of a directory that has lost its name.
  pub mark :
      (c : InodeId) (d : DetachedRoot)
      → Unnamed dentries c
      → HasDir inodes c d.mount_id
      → ((m : MountId) (e : MountEntry) → get m mounts ≡ some e → eqb e.root_inode_id c ≡ false)
      → IsForest past inodes dentries (insert c d detached) mounts next_inode_id
  mark c d unnamed directory roots = record {
    next = t.next;
    steady = t.steady;
    next_is = t.next_is;
    unique = t.unique;
    names_unique = t.names_unique;
    key = t.key;
    valid = t.valid;
    entry = λ p n k g.
        let j = t.entry p n k g in
        record {
          mount = j.mount;
          parent = j.parent;
          child = j.child;
          attached = elim (Bool-cases (eqb c k)) [
            | inl hit ↦
                absurd (unnamed p n (g ∙ ap (λ (x : InodeId). some x) (sym ((eqb_iff c k).0 hit))))
            | inr miss ↦ get-insert c k d detached ∙ rw miss (j.attached)
          ];
        };
    single = t.single;
    detached_root = λ k r g. elim (Bool-cases (eqb c k)) [
      | inl hit ↦
          let at : d ≡ r = ground (arith, get-insert c k d detached, hit, g) in
          subst (λ (x : DetachedRoot). HasDir inodes k x.mount_id) at
            (subst (λ x. HasDir inodes x d.mount_id) ((eqb_iff c k).0 hit) directory)
      | inr miss ↦ t.detached_root k r (ground (arith, get-insert c k d detached, miss, g))
    ];
    mounted = λ m e g.
        let r = t.mounted m e g in
        record {
          mount = r.mount;
          directory = r.directory;
          unnamed = r.unnamed;
          attached = ground (
            arith,
            get-insert c e.root_inode_id d detached,
            roots m e g,
            eqb_iff c e.root_inode_id,
            eqb_iff e.root_inode_id c,
            r.attached,
          );
        };
  }
