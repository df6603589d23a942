-- ===== src/Namespace/Tree/Changes.antt =====
-- The single changes that the batches of the namespace make, each of which keeps the invariant
-- (beryl-metadata/src/raft/storage/transaction.rs).
use vecton.Prelude.{
  ◌≡◌, ◌<◌, ◌≤◌, refl, sym, subst, ap, ◌∙◌, Option, none, some, String, Map, Unique, nat_eq,
  string_eq, pair_eq, inl, inr, arith, Bool-cases, Option-cases, eqb, eqb_iff, false,
}
use vecton.Prelude.Maps.{get, insert, remove, get-insert, get-remove, insert-Unique, remove-Unique}
use vecton.Prelude.Result.{ok}
use vecton.Types.Values.{InodeId, MountId}
use vecton.Inode.{Inode, FileData, file, dir, validate}
use vecton.Storage.{MountEntry, DetachedRoot}
use vecton.Namespace.Tree.Remaining.{Remains-alike, Remains-same, Remains-trans}
use vecton.Namespace.Tree.{
  Past, Steady, Remains, Inodes, Dentries, Has, HasDir, Unnamed, Childless, IsForest,
}

-- Every inode but one stays, with its kind and its mount.
abbrev pub Keeps : Inodes → Inodes → InodeId → Type 0
Keeps inodes inodes' c =
    (k : InodeId) (i : Inode)
    → get k inodes ≡ some i
    → eqb k c ≡ false
    → (i' : Inode) × (get k inodes' ≡ some i')
      × (i.kind ≡ dir → i'.kind ≡ dir)
      × (i'.mount_id ≡ i.mount_id)

Has-Keeps :
    {inodes inodes' : Inodes} (c k : InodeId) {m : MountId}
    → Keeps inodes inodes' c
    → eqb k c ≡ false
    → Has inodes k m
    → Has inodes' k m
Has-Keeps c k keep other h =
    let (i', found, kind, mount) = keep k h.inode h.found other in
    record { inode = i'; found = found; mount = mount ∙ h.mount }

HasDir-Keeps :
    {inodes inodes' : Inodes} (c k : InodeId) {m : MountId}
    → Keeps inodes inodes' c
    → eqb k c ≡ false
    → HasDir inodes k m
    → HasDir inodes' k m
HasDir-Keeps c k keep other h =
    let (i', found, kind, mount) = keep k h.inode h.found other in
    record { inode = i'; found = found; kind = kind h.kind; mount = mount ∙ h.mount }

module _ {past : Past} {inodes : Inodes} {dentries : Dentries} {detached : Map InodeId DetachedRoot}
    {mounts : Map MountId MountEntry} {next_inode_id : Option InodeId}
    (t : IsForest past inodes dentries detached mounts next_inode_id) where
  -- Another map of inodes, in which one that no name, marker or mount needs may be missing.
  reform :
      (inodes' : Inodes) (next' : InodeId) (c : InodeId)
      → Unique inodes'
      → Keeps inodes inodes' c
      → ((k : InodeId) (i : Inode) → get k inodes' ≡ some i → (i.inode_id ≡ k) × (k < next'))
      → ((k : InodeId) (i : Inode) (f : FileData)
          → get k inodes' ≡ some i
          → i.kind ≡ file f
          → validate k f ≡ ok tt)
      → ((p : InodeId) (n : String) (k : InodeId)
          → get (p, n) dentries ≡ some k
          → (eqb p c ≡ false) × (eqb k c ≡ false))
      → ((k : InodeId) (r : DetachedRoot) → get k detached ≡ some r → eqb k c ≡ false)
      → ((m : MountId) (e : MountEntry) → get m mounts ≡ some e → eqb e.root_inode_id c ≡ false)
      → Steady past inodes' next'
      → IsForest past inodes' dentries detached mounts (some next')
  reform inodes' next' c u keep key valid names marks roots steady = record {
    next = next';
    steady = steady;
    next_is = refl;
    unique = u;
    names_unique = t.names_unique;
    key = key;
    valid = valid;
    entry = λ p n k g.
        let j = t.entry p n k g in
        let apart = names p n k g in
        record {
          mount = j.mount;
          parent = HasDir-Keeps c p keep apart.0 j.parent;
          child = Has-Keeps c k keep apart.1 j.child;
          attached = j.attached;
        };
    single = t.single;
    detached_root = λ k r g. HasDir-Keeps c k keep (marks k r g) (t.detached_root k r g);
    mounted = λ m e g.
        let r = t.mounted m e g in
        record {
          mount = r.mount;
          directory = HasDir-Keeps c e.root_inode_id keep (roots m e g) r.directory;
          unnamed = r.unnamed;
          attached = r.attached;
        };
  }

  below : (k : InodeId) (m : MountId) → Has inodes k m → k < t.next
  below k m h = (t.key k h.inode h.found).1

  dir-below : (k : InodeId) (m : MountId) → HasDir inodes k m → k < t.next
  dir-below k m h = (t.key k h.inode h.found).1

  apart : (k c : InodeId) → k < c → eqb k c ≡ false
  apart k c h = ground arith

  put-Steady :
      (k : InodeId) (i : Inode) (next' : InodeId)
      → t.next ≤ next'
      → (get k inodes ≡ none → t.next ≤ k)
      → ((o : Inode) → get k inodes ≡ some o → Remains o i)
      → Steady past (insert k i inodes) next'
  put-Steady k i next' grows new same = record {
    grows = omega (arith, t.steady.grows, grows);
    kept = λ j p q g h. elim (Bool-cases (eqb k j)) [
      | inl hit ↦
          let at : k ≡ j = (eqb_iff k j).0 hit in
          let is : i ≡ q = ground (arith, get-insert k j i inodes, hit, h) in
          elim (Option-cases (get k inodes)) [
            | inl free ↦ absurd (omega (arith, new free, past.bounded j p g, t.steady.grows, at))
            | inr (o, found) ↦
                let before =
                  t.steady.kept j p o g (ap (λ (x : InodeId). get x inodes) (sym at) ∙ found) in
                Remains-trans (Remains-trans before (same o found)) (Remains-same i q is)
          ]
      | inr miss ↦ t.steady.kept j p q g (ground (arith, get-insert k j i inodes, miss, h))
    ];
    gone = λ j lt g. elim (Bool-cases (eqb k j)) [
      | inl hit ↦
          let at : k ≡ j = (eqb_iff k j).0 hit in
          let free : get k inodes ≡ none =
            ap (λ (x : InodeId). get x inodes) at ∙ t.steady.gone j lt g in
          absurd (omega (arith, new free, lt, t.steady.grows, at))
      | inr miss ↦ get-insert k j i inodes ∙ rw miss (t.steady.gone j lt g)
    ];
  }

  drop-Steady : (k : InodeId) → Steady past (remove k inodes) t.next
  drop-Steady k = record {
    grows = t.steady.grows;
    kept = λ j p q g h. t.steady.kept j p q g (ground (arith, get-remove k j inodes t.unique, h));
    gone = λ j lt g. ground (arith, get-remove k j inodes t.unique, t.steady.gone j lt g);
  }

  -- A write of one inode, new or old.
  pub put_inode :
      (k : InodeId) (i : Inode) (next' c : InodeId)
      → i.inode_id ≡ k
      → k < next'
      → t.next ≤ next'
      → t.next ≤ c
      → (get k inodes ≡ none → t.next ≤ k)
      → ((f : FileData) → i.kind ≡ file f → validate k f ≡ ok tt)
      → ((o : Inode) → get k inodes ≡ some o → Remains o i)
      → IsForest past (insert k i inodes) dentries detached mounts (some next')
  put_inode k i next' c key lt grows beyond new valid same =
      reform (insert k i inodes) next' c (insert-Unique k i inodes t.unique)
        (λ j o g other. elim (Bool-cases (eqb k j)) [
          | inl hit ↦
              let at : k ≡ j = (eqb_iff k j).0 hit in
              let remains = same o (ap (λ (x : InodeId). get x inodes) at ∙ g) in
              (i, get-insert k j i inodes ∙ rw hit, remains.directory, remains.mount)
          | inr miss ↦ (o, get-insert k j i inodes ∙ rw miss g, λ d. d, refl)
        ])
        (λ j o g. elim (Bool-cases (eqb k j)) [
          | inl hit ↦ ground (arith, get-insert k j i inodes, key, (eqb_iff k j).0 hit)
          | inr miss ↦
              let old : get j inodes ≡ some o = ground (arith, get-insert k j i inodes, miss) in
              ((t.key j o old).0, omega (arith, (t.key j o old).1, grows))
        ])
        (λ j o f g is. elim (Bool-cases (eqb k j)) [
          | inl hit ↦
              let at : k ≡ j = (eqb_iff k j).0 hit in
              let new : i ≡ o = ground (arith, get-insert k j i inodes, hit, g) in
              subst (λ x. validate x f ≡ ok tt) at (valid f (ap (λ (x : Inode). x.kind) new ∙ is))
          | inr miss ↦ t.valid j o f (ground (arith, get-insert k j i inodes, miss)) is
        ])
        (λ p n j g.
          let e = t.entry p n j g in
          (
            apart p c (omega (arith, dir-below p e.mount e.parent, beyond)),
            apart j c (omega (arith, below j e.mount e.child, beyond)),
          ))
        (λ j r g. apart j c (omega (arith, dir-below j r.mount_id (t.detached_root j r g), beyond)))
        (λ m e g.
          let r = t.mounted m e g in
          apart e.root_inode_id c (omega (arith, dir-below e.root_inode_id m r.directory, beyond)))
        (put-Steady k i next' grows new same)

  -- A directory whose time changes.
  pub touch :
      (k : InodeId) (o i : Inode)
      → get k inodes ≡ some o
      → i.inode_id ≡ o.inode_id
      → i.kind ≡ o.kind
      → i.mount_id ≡ o.mount_id
      → IsForest past (insert i.inode_id i inodes) dentries detached mounts next_inode_id
  touch k o i found id kind mount =
      let at : i.inode_id ≡ k = id ∙ (t.key k o found).0 in
      let same : (q : Inode) → get k inodes ≡ some q → Remains q i = λ q g.
        Remains-trans (Remains-same q o (ground (arith, found, g)))
          (Remains-alike o i kind mount) in
      subst (IsForest past (insert i.inode_id i inodes) dentries detached mounts) (sym t.next_is) (
        subst (λ x. IsForest past (insert x i inodes) dentries detached mounts (some t.next))
          (sym at)
          (put_inode k i t.next t.next at (t.key k o found).1 (omega arith) (omega arith)
            (λ free. absurd (ground (arith, free, found)))
            (λ f is. t.valid k o f found (sym kind ∙ is)) same))

  -- A new inode under the next identity.
  pub add :
      (i : Inode) (next' : InodeId)
      → i.inode_id ≡ t.next
      → t.next < next'
      → ((f : FileData) → i.kind ≡ file f → validate t.next f ≡ ok tt)
      → IsForest past (insert i.inode_id i inodes) dentries detached mounts (some next')
  add i next' key lt valid =
      subst (λ x. IsForest past (insert x i inodes) dentries detached mounts (some next')) (sym key)
        (put_inode t.next i next' t.next key lt (omega arith) (omega arith) (λ free. omega arith)
          valid (λ o g. absurd (omega (arith, (t.key t.next o g).1))))

  -- The loss of an inode that nothing needs.
  pub discard :
      (c : InodeId)
      → Unnamed dentries c
      → Childless dentries c
      → get c detached ≡ none
      → ((m : MountId) (e : MountEntry) → get m mounts ≡ some e → eqb e.root_inode_id c ≡ false)
      → IsForest past (remove c inodes) dentries detached mounts next_inode_id
  discard c unnamed childless attached roots =
      subst (IsForest past (remove c inodes) dentries detached mounts) (sym t.next_is) (
        reform (remove c inodes) t.next c (remove-Unique c inodes t.unique)
          (λ k i g other. (
            i,
            ground (arith, get-remove c k inodes t.unique, eqb_iff c k, eqb_iff k c),
            λ d. d,
            refl,
          ))
          (λ k i g. t.key k i (ground (arith, get-remove c k inodes t.unique, g)))
          (λ k i f g is. t.valid k i f (ground (arith, get-remove c k inodes t.unique, g)) is)
          (λ p n k g. (
            elim (Bool-cases (eqb p c)) [
              | inr no_hit ↦ no_hit
              | inl hit ↦ absurd (
                  ground (
                    arith,
                    childless n,
                    ap (λ (x : InodeId). get (x, n) dentries) ((eqb_iff p c).0 hit),
                    g,
                  ))
            ],
            elim (Bool-cases (eqb k c)) [
              | inr no_hit ↦ no_hit
              | inl hit ↦
                  absurd (unnamed p n (g ∙ ap (λ (x : InodeId). some x) ((eqb_iff k c).0 hit)))
            ],
          ))
          (λ k r g. elim (Bool-cases (eqb k c)) [
            | inr no_hit ↦ no_hit
            | inl hit ↦ absurd (
                ground
                  (arith, attached, ap (λ (x : InodeId). get x detached) ((eqb_iff k c).0 hit), g))
          ])
          roots (drop-Steady c))
