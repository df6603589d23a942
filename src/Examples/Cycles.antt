-- ===== src/Examples/Cycles.antt =====
-- An example of a rename of a directory to a name in itself
-- (beryl-metadata/src/raft/state_machine/namespace.rs).
use vecton.Prelude.{◌≡◌, refl, String, List, [], ◌∷◌, nat_eq, string_eq, pair_eq}
use vecton.Prelude.Maps.{get}
use vecton.Prelude.Result.{ok}
use vecton.Types.Values.{InodeId}
use vecton.Inode.{dir}
use vecton.Storage.{Store}
use vecton.Namespace.Rename.{apply_rename}
use vecton.Namespace.Tree.Walks.{Leads}
use vecton.Namespace.Tree.Cycles.{into_itself, rename_into_itself}
use vecton.StateMachine.Invariant.{Reaches-IsNamespace}
use vecton.Examples.Tree.{inode_of, booted, with_directories}
use vecton.Examples.Namespace.{with_directories-Reaches}

-- /a becomes /a/x.
rename_into_itself_example :
    (s' : Store) × (apply_rename with_directories (into_itself 1 "a" 2 "x" 0) 40 4 ≡ ok s')
    × ((k : InodeId) (components : List String) → Leads s'.dentries k components 2 → k ≡ 2)
unfolding get
rename_into_itself_example =
    rename_into_itself with_directories 1 "a" 2 "x" 0 40 4 (inode_of 2 dir 20 20)
      (Reaches-IsNamespace (booted ∷ []) with_directories with_directories-Reaches) refl refl refl
      refl
