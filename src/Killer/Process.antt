-- ===== src/Killer/Process.antt =====
-- src/bin/killer.cpp: the process of the killer.
pub mod Safe
use deprecated_yandex_contes.Base.{
  ℕ, List, [], ◌∷◌, Option, Bytes, Result, ok, err, or_throw, assertion, json_error, ◌>>=◌,
}
use deprecated_yandex_contes.Text.Streams.{OStream}
use deprecated_yandex_contes.Text.Json.{Json}
use deprecated_yandex_contes.Killer.Impl.{
  ControlGroups, KillerOptions, KillerImpl, new_killer, killer_impl,
}
use deprecated_yandex_contes.Killer.Stream.{Pods, serve}
use deprecated_yandex_contes.Broker.Interface.{Exit, exit_of}

-- What the process finds: the files, its own control group and all of them, the bytes that will
-- arrive on its standard input, and its standard output.
pub record World (W : Type 0) : Type 0 where
  pub file : Bytes → Option Bytes
  pub this : Bytes
  pub groups : W
  pub input : Bytes
  pub output : OStream

module _ {I : Type 0} (json : Json (KillerOptions I)) where
  -- `readOptions`, of a file with this content, if there is one.
  unfoldable pub read_options : Option Bytes → Result (KillerOptions I)
  read_options content = do text ← or_throw content json_error; or_throw (json.read text) json_error

module _ {I W : Type 0} (json : Json (KillerOptions I)) (cgroups : ControlGroups W)
    (format : Bytes → I → Result Bytes) where
  -- `main` up to its loop. `argc` is the length of the list.
  unfoldable pub start : World W → List Bytes → Result (KillerImpl W)
  start world (_ ∷ path ∷ []) = do
    options ← read_options json (world.file path)
    new_killer cgroups format options world.this world.groups
  start world _ = err assertion

  -- `main`, on fuel: how it ends, the control groups that it leaves, and what it has written.
  unfoldable pub main : Pods I → ℕ → World W → List Bytes → Exit × W × OStream
  main pods fuel world argv = elim (start world argv) [
    | err e ↦ (exit_of e, world.groups, world.output)
    | ok k ↦
        let (exit, k', output) =
          serve pods (killer_impl cgroups format) fuel world.input k world.output in
        (exit, k'.groups, output)
  ]
