-- ===== src/Inode/Advances.antt =====
-- How the durable authority of a file moves: FileData of beryl-metadata/src/inode.rs.
use vecton.Prelude.{◌≡◌, ◌≤◌, refl, ◌∙◌, arith}
use vecton.Inode.{FileData}

-- The layout of a file is fixed, and its lease epoch, content generation and allocation cursor only
-- go forward.
pub record Advances (f g : FileData) : Type 0 where
  pub layout : g.layout ≡ f.layout
  pub lease_epoch : f.lease_epoch ≤ g.lease_epoch
  pub generation : f.generation ≤ g.generation
  pub next_index : f.next_index ≤ g.next_index

pub Advances-refl : (f : FileData) → Advances f f
Advances-refl f = record {
  layout = refl;
  lease_epoch = omega arith;
  generation = omega arith;
  next_index = omega arith;
}

pub Advances-trans : {f g h : FileData} → Advances f g → Advances g h → Advances f h
Advances-trans a b = record {
  layout = b.layout ∙ a.layout;
  lease_epoch = omega (arith, a.lease_epoch, b.lease_epoch);
  generation = omega (arith, a.generation, b.generation);
  next_index = omega (arith, a.next_index, b.next_index);
}
