-- ===== src/Tools/Flags.antt =====
-- The option loops of internal/nist/cpp/iid_main.cpp and internal/nist/cpp/non_iid_main.cpp, which
-- take the same options in the same way.
use nist_sp_800_90b_go.Base.{
  ◌+◌, ◌-◌, ◌^◌, Bool, true, false, not, ◌||◌, List, [], ◌∷◌, ltb, ◌==◌, if◌then◌else◌,
}
use nist_sp_800_90b_go.Result.{Text, codes}
use nist_sp_800_90b_go.Files.Effects.{◌>>◌, return}
use nist_sp_800_90b_go.Tools.{
  Flag, opt_i, opt_c, opt_a, opt_t, opt_v, opt_q, opt_l, opt_o, opt_other, Environment, Main,
  print_usage, change_options, fail_usage,
}

unfoldable pub starts_comma : Text → Bool
starts_comma [] = false
starts_comma (c ∷ rest) = c == 44

module _ {Case : Type 0} where
  -- `optarg` of the option -l: an index, a comma, a size.
  unfoldable pub take_subset : Environment → Text → Main Case (Unit {0})
  unfolding starts_comma
  take_subset env optarg = do
    let index = env.strtoull optarg
    (if ltb (2 ^ 64 - 1) index.value || index.invalid || not (starts_comma index.rest)
        then fail_usage (codes "Error on index/samples.")
        else return tt)
    change_options (λ o. record o { subset_index = index.value })
    let size = env.strtoull (after_comma index.rest)
    (if ltb (2 ^ 64 - 1) size.value || size.invalid
        then fail_usage (codes "Error on index/samples.")
        else return tt)
    change_options (λ o. record o { subset_size = size.value })
    where
      after_comma : Text → Text
      after_comma [] = []
      after_comma (c ∷ rest) = rest

  unfoldable pub take_option : Environment → Flag → Main Case (Unit {0})
  take_option env opt_i = change_options (λ o. record o { initial_entropy = true })
  take_option env opt_c = change_options (λ o. record o { initial_entropy = false })
  take_option env opt_a = change_options (λ o. record o { all_bits = true })
  take_option env opt_t = change_options (λ o. record o { all_bits = false })
  take_option env opt_v = change_options (λ o. record o { verbose = o.verbose + 1 })
  take_option env opt_q = change_options (λ o. record o { quiet_mode = true })
  take_option env (opt_l optarg) = take_subset env optarg
  take_option env (opt_o optarg) =
      change_options (λ o. record o { json_output = true; outputfilename = optarg })
  take_option env opt_other = print_usage

  unfoldable pub take_options : Environment → List Flag → Main Case (Unit {0})
  take_options env [] = return tt
  take_options env (f ∷ rest) = take_option env f >> take_options env rest
