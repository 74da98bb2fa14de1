-- ===== src/Tests/Hidden.antt =====
-- Two stores of a packed root, one with a link out of it.
use stratodb.Base.{
  ◌≡◌, refl, inl, inr, [], ◌∷◌, Bool, true, false, Bool-cases, ◌&&◌, none, some, if◌then◌else◌,
}
use stratodb.Error.{ok, name}
use stratodb.Key.{root, skey_eq, skey_eq_sound}
use stratodb.Engine.Backend.{ReadNodes, NodeStep}
use stratodb.Tree.{locate_from}
use stratodb.Tree.Refines.Hidden.{LinksDiffer, locate_from-LinksDiffer}
use stratodb.Tests.Toy.{toy_crates}
use stratodb.Tests.Store.{k_item}

-- The store says whether the link is there.
abbrev packed_root : ReadNodes
packed_root = record {
  Store = Bool;
  fetch = λ s k. ok none;
  scan_from = λ s k. ok [];
  node_step = λ s k. ok (some NodeStep.packed);
  child_link = λ s k n. if skey_eq k root && s then ok (some k_item) else ok none;
}

one_link : LinksDiffer packed_root false true root
one_link = record {
  steps = λ k. refl;
  links = λ k. elim (Bool-cases (skey_eq k root)) [
    | inl same ↦ inl (skey_eq_sound k root same)
    | inr other ↦ inr (λ n. rw other refl)
  ];
}

locate_from-LinksDiffer_example :
    locate_from packed_root true root (name (97 ∷ []) ∷ [])
    ≡ locate_from packed_root false root (name (97 ∷ []) ∷ [])
locate_from-LinksDiffer_example =
    locate_from-LinksDiffer packed_root false true root one_link refl (name (97 ∷ []) ∷ []) root
