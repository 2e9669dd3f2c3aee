-- ===== src/Experiment/Samples.antt =====
-- Patterns that match and do not, crates/experiment/src/lib.rs.
use wire_assume.Prelude.{strip_prefix, starts_with, contains_str, split_on, ◌≡◌, refl, true, false}
use wire_assume.Experiment.Paths.{first_of, request_path, path_matches}
use wire_assume.Experiment.Paths.Laws.{path_matches_prefix}

program : Unit {0}
unfolding path_matches request_path first_of strip_prefix starts_with contains_str split_on
program = tt

path_of_uri : request_path "http://localhost:8080/customers/1?page=2" ≡ "/customers/1"
unfolding program
path_of_uri = refl

customer : path_matches "/customers/*/orders" "/customers/1/orders" ≡ true
unfolding program
customer = refl

-- The last part is looked for at its first place only, so this path, which ends in the part, is refused.
twice : path_matches "*/orders" "/orders/orders" ≡ false
unfolding program
twice = refl

star : contains_str "/customers/*/orders" "*" ≡ true
unfolding program
star = refl

anchored : starts_with "/customers/*/orders" "*" ≡ false
unfolding program
anchored = refl

path_matches_prefix_example :
    starts_with "/customers/1/orders" (first_of (split_on 42 "/customers/*/orders") "") ≡ true
path_matches_prefix_example =
    path_matches_prefix "/customers/*/orders" "/customers/1/orders" customer star anchored
