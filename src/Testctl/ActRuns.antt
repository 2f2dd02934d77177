-- ===== src/Testctl/ActRuns.antt =====
-- The runs of act for workflows, as internal/testctl/ci.go means them: the commands and their order.
use modeld_go.Common.{◌≡◌, refl, Bool, true, false, Option, none, List, [], ◌∷◌, ◌++◌, Text, codes}
use modeld_go.Errors.{Error}
use modeld_go.Testctl.{Cmd, Event, ran, started, killed, dialed, fetched, printed}
use modeld_go.Testctl.Ci.{act_args}

-- The commands that have been run, the last first.
abbrev pub runs : List Event → List (Cmd × Option Error)
runs [] = []
runs (ran c e ∷ t) = (c, e) ∷ runs t
runs (started p c ∷ t) = runs t
runs (killed p ∷ t) = runs t
runs (dialed p b ∷ t) = runs t
runs (fetched u c ∷ t) = runs t
runs (printed x ∷ t) = runs t

-- Which image act takes for a runner of Ubuntu.
abbrev image : Text → Text → List Text
image runner version =
    codes "-P"
    ∷ (codes "ubuntu-" ++ (runner ++ (codes "=ghcr.io/catthehacker/ubuntu:act-" ++ version)))
    ∷ []

abbrev images : Bool → List Text
images false = []
images true =
    image (codes "latest") (codes "22.04")
    ++ (image (codes "22.04") (codes "22.04") ++ image (codes "20.04") (codes "20.04"))

-- The workflow, the images if they are asked for, and the extra arguments.
abbrev pub arguments : Bool → List Text → Text → List Text
arguments cat extra file = codes "-W" ∷ file ∷ (images cat ++ extra)

pub act_args-arguments :
    (cat : Bool) (extra : List Text) (file : Text)
    → act_args file cat extra ≡ arguments cat extra file
act_args-arguments false extra file = refl
act_args-arguments true extra file = refl

abbrev pub act_cmd : Bool → List Text → Text → Cmd
act_cmd cat extra file = record {
  path = codes "act";
  args = arguments cat extra file;
  env = [];
  dir = [];
  stream = true;
}

-- act for each workflow, in order, without an error, after `before`.
abbrev pub acted :
    Bool → List Text → List Text → List (Cmd × Option Error) → List (Cmd × Option Error)
acted cat extra [] before = before
acted cat extra (f ∷ fs) before = acted cat extra fs ((act_cmd cat extra f, none) ∷ before)
