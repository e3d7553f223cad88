-- ===== src/Killer/Impl.antt =====
-- src/lib/KillerImpl.cpp: the killer that acts on control groups.
pub mod Safety
use deprecated_yandex_contes.Base.{
  Bool, true, false, ◌&&◌, ◌||◌, List, [], ◌∷◌, Bytes, ◌==◌, if◌then◌else◌, Result, ok, ◌>>=◌,
}
use deprecated_yandex_contes.Killer.{
  KillerStatus, ok_status, protected_status, error_status, KillerOps, KillerAction, freeze_action,
  unfreeze_action, terminate_action,
}

-- The control groups of the system, by name: code of another library. `act` is the body of a method,
-- `attachChild` and the action; `false` says that it threw, and it may have changed the groups.
pub record ControlGroups (W : Type 0) : Type 0 where
  pub act : KillerAction → Bytes → W → Bool × W

-- The equality of strings, and the sets of names as lists.
abbrev pub same_name : Bytes → Bytes → Bool
same_name [] [] = true
same_name [] (_ ∷ _) = false
same_name (_ ∷ _) [] = false
same_name (a ∷ as_) (b ∷ bs) = (a == b) && same_name as_ bs

abbrev pub contains : List Bytes → Bytes → Bool
contains [] n = false
contains (m ∷ ms) n = same_name m n || contains ms n

abbrev pub erase : List Bytes → Bytes → List Bytes
erase [] n = []
erase (m ∷ ms) n = let rest = erase ms n in if same_name m n then rest else m ∷ rest

-- `KillerImpl::Options`.
pub record KillerOptions (I : Type 0) : Type 0 where
  pub unprotected : List I
  pub pattern : Bytes

-- The state: the names that it may act on, the pattern of a name, and the control groups.
pub record KillerImpl (W : Type 0) : Type 0 where
  pub unprotected : List Bytes
  pub pattern : Bytes
  pub groups : W

-- `format`: what `boost::format` makes of a pattern and an identifier, a function of a library, which
-- throws if the pattern has not just one place for it.
module _ {I W : Type 0} (cgroups : ControlGroups W) (format : Bytes → I → Result Bytes) where
  -- `rawIdToCgroup`.
  abbrev pub raw_id_to_cgroup : Bytes → I → Result Bytes
  raw_id_to_cgroup pattern id = format pattern id

  -- The names that the loop of the constructor inserts.
  unfoldable pub names_of : Bytes → List I → Result (List Bytes)
  names_of pattern [] = ok []
  names_of pattern (id ∷ ids) = do
    name ← raw_id_to_cgroup pattern id
    names ← names_of pattern ids
    ok (name ∷ names)

  -- The constructor, in a process that runs in the control group `this`.
  unfoldable pub new_killer : KillerOptions I → Bytes → W → Result (KillerImpl W)
  new_killer options this w = do
    names ← names_of options.pattern options.unprotected
    ok (record { unprotected = erase names this; pattern = options.pattern; groups = w })

  -- The macro `YANDEX_FLOWCTL_KILLER`, behind the name of the group.
  unfoldable pub act_at : KillerAction → Bytes → KillerImpl W → KillerStatus × KillerImpl W
  act_at action cid k = elim (contains k.unprotected cid) [
    | false ↦ (protected_status, k)
    | true ↦
        let (good, w) = cgroups.act action cid k.groups in
        (if good then ok_status else error_status, record k { groups = w })
  ]

  -- The macro. The name is made outside of its `try`.
  unfoldable pub act_on : KillerAction → I → KillerImpl W → Result (KillerStatus × KillerImpl W)
  unfolding act_at
  act_on action id k = do cid ← raw_id_to_cgroup k.pattern id; ok (act_at action cid k)

  abbrev pub killer_impl : KillerOps I (KillerImpl W)
  killer_impl = record {
    freeze = act_on freeze_action;
    unfreeze = act_on unfreeze_action;
    terminate = act_on terminate_action;
  }
