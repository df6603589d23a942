-- ===== src/Namespace/Tree/Remaining.antt =====
-- What an inode keeps through the changes of a namespace
-- (beryl-metadata/src/raft/storage/transaction.rs).
use vecton.Prelude.{◌≡◌, refl, ◌∙◌, nat_eq}
use vecton.Inode.{Inode}
use vecton.Inode.Advances.{Advances-refl, Advances-trans}
use vecton.Namespace.Tree.{Remains}

-- Another inode of the same kind and mount.
pub Remains-alike : (o i : Inode) → i.kind ≡ o.kind → i.mount_id ≡ o.mount_id → Remains o i
Remains-alike o i kind mount = record {
  directory = λ d. kind ∙ d;
  file_advances = λ f e. (f, kind ∙ e, Advances-refl f);
  mount = mount;
}

pub Remains-same : (o i : Inode) → o ≡ i → Remains o i
Remains-same o i e = rw e (Remains-alike i i refl refl)

pub Remains-trans : {o i j : Inode} → Remains o i → Remains i j → Remains o j
Remains-trans a b = record {
  directory = λ d. b.directory (a.directory d);
  file_advances = λ f e.
      let (g, kind, first) = a.file_advances f e in
      let (h, kind', next) = b.file_advances g kind in (h, kind', Advances-trans first next);
  mount = b.mount ∙ a.mount;
}
