-- ===== src/OutputDir/Tests.antt =====
-- Two output directories, one of which leaves the repository.
use sitey.Prelude.{refl, ◌≡◌, true, false, List, [], ◌∷◌, ◌++◌, All}
use sitey.Text.{Text, codes, split}
use sitey.OutputDir.{is_output_dir, is_valid_output_dir, is_refused_char}
use sitey.OutputDir.Inside.{walk, is_output_dir-below}

runs : Unit {0}
unfolding is_output_dir is_valid_output_dir is_refused_char split
runs = tt

accepted : is_output_dir (codes "apps/my site/dist") ≡ true
unfolding runs
accepted = refl

refused : is_output_dir (codes "dist/../../other") ≡ false
unfolding runs
refused = refl

is_output_dir-below_example :
    (below : List Text) × (walk []
        (split b'/' (codes "/srv/repo" ++ b'/' ∷ codes "apps/my site/dist"))
      ≡ walk [] (split b'/' (codes "/srv/repo")) ++ below)
    × All (λ c. is_refused_char c ≡ false) (codes "apps/my site/dist")
is_output_dir-below_example =
    is_output_dir-below (codes "/srv/repo") (codes "apps/my site/dist") accepted
