-- ===== src/Killer.antt =====
-- include/yandex/contest/invoker/flowctl/game/Killer.hpp: the interface of the killer.
pub mod Impl
pub mod Stream
pub mod Process
use deprecated_yandex_contes.Base.{Result}

-- `Killer::Status`.
pub data KillerStatus : Type 0 where
  ok_status protected_status error_status : KillerStatus

-- The virtual methods of `Killer`, on the states `K` of an implementation; `I` is `Killer::Id`, the
-- identifier of a process, a type of the invoker library.
pub record KillerOps (I K : Type 0) : Type 0 where
  pub freeze : I → K → Result (KillerStatus × K)
  pub unfreeze : I → K → Result (KillerStatus × K)
  pub terminate : I → K → Result (KillerStatus × K)

-- A call of one of them: `Command::Type` and the identifier of `KillerInterface::Command`.
pub data KillerAction : Type 0 where
  freeze_action unfreeze_action terminate_action : KillerAction

pub record KillerCommand (I : Type 0) : Type 0 where
  pub type : KillerAction
  pub id : I

-- The method that an action names.
abbrev pub perform :
    {I K : Type 0} → KillerOps I K → KillerAction → I → K → Result (KillerStatus × K)
perform killer freeze_action = killer.freeze
perform killer unfreeze_action = killer.unfreeze
perform killer terminate_action = killer.terminate
