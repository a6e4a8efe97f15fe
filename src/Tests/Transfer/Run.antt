-- ===== src/Tests/Transfer/Run.antt =====
-- The theorems on run.py at concrete inputs.
use solutions_library.Prelude.{◌≡◌, refl, true, false, none, some, [], All}
use solutions_library.Prelude.Text.{codes, text_eq}
use solutions_library.Prelude.Lines.{rstrip}
use solutions_library.Transfer.Shard.{lstrip}
use solutions_library.Transfer.Run.{confirm}
use solutions_library.Transfer.Run.Main.{main}
use solutions_library.Transfer.Run.Promises.{
  IsFollowed, is_read, is_launch, main-IsFollowed, main_dry_run-is_read, main_unconfirmed-is_launch,
}
use solutions_library.Tests.Transfer.Samples.{settings, world, flags}

main-IsFollowed_example : IsFollowed (main (world none) settings (flags false true) []).0
main-IsFollowed_example = main-IsFollowed (world none) settings (flags false true)

main_dry_run-is_read_example :
    All (λ k. is_read k ≡ true) (main (world none) settings (flags true false) []).0
main_dry_run-is_read_example = main_dry_run-is_read (world none) settings (flags true false) refl

unconfirmed : confirm (world (some (codes "no"))) settings ≡ false
unfolding confirm rstrip lstrip text_eq
unconfirmed = refl

main_unconfirmed-is_launch_example :
    All
      (λ k. is_launch k ≡ false)
      (main (world (some (codes "no"))) settings (flags false false) []).0
main_unconfirmed-is_launch_example =
    main_unconfirmed-is_launch (world (some (codes "no"))) settings (flags false false) refl
      unconfirmed
