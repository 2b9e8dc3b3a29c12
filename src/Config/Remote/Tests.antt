-- ===== src/Config/Remote/Tests.antt =====
-- A configuration in etcd at version 2, whose file is at version 1.
use easycall.Base.{◌≡◌, refl, false, none, some, [], ◌∷◌, inl, inr, ok}
use easycall.Base.Int.{pos}
use easycall.Config.{load}
use easycall.Config.Strings.{parse_int, parse_uint, parse_digits}
use easycall.Config.Remote.{RemoteConfig, Answers, load_all_config}
use easycall.Config.Remote.Versions.{run_ticks, load_all_config_newer, data_never_loaded}

abbrev old : RemoteConfig
old = record {
  config = record { container = [] };
  config_loaded = false;
  config_version = pos 0;
  disk = record { version = some (49 ∷ []); remote = none; local = some (97 ∷ 61 ∷ 50 ∷ 10 ∷ []) };
}

-- The data is `a=1`, and etcd answers both requests.
abbrev answers : Answers
answers = record {
  directory = none;
  version = some (50 ∷ []);
  remote_data = some (97 ∷ 61 ∷ 49 ∷ 10 ∷ []);
  written = some;
}

-- The request for the data fails.
abbrev half : Answers
half = record answers { remote_data = none }

newer_loaded :
    let c' = (load_all_config answers old).0 in
    (c'.config
      ≡ (load
          (ok (97 ∷ 61 ∷ 50 ∷ 10 ∷ []))
          none
          (load (ok (97 ∷ 61 ∷ 49 ∷ 10 ∷ [])) none old.config).0).0)
    × (c'.config_version ≡ parse_int (50 ∷ []))
    × (c'.disk ≡ record {
      version = some (50 ∷ []);
      remote = some (97 ∷ 61 ∷ 49 ∷ 10 ∷ []);
      local = some (97 ∷ 61 ∷ 50 ∷ 10 ∷ []);
    })
unfolding parse_int parse_uint parse_digits
newer_loaded =
    load_all_config_newer answers old (50 ∷ []) (97 ∷ 61 ∷ 49 ∷ 10 ∷ []) refl refl refl refl refl
      refl

data_never_loaded_example :
    let c' = (load_all_config half old).0 in
    (run_ticks ((some (50 ∷ []), answers) ∷ (none, answers) ∷ []) c' ≡ c')
    × (c'.disk.remote ≡ none)
    × ((load_all_config answers (record {
      config = record { container = [] };
      config_loaded = false;
      config_version = pos 0;
      disk = c'.disk;
    })).0.disk.remote
        ≡ none)
unfolding parse_int parse_uint parse_digits
data_never_loaded_example =
    data_never_loaded half answers old (50 ∷ []) (record { container = [] })
      ((some (50 ∷ []), answers) ∷ (none, answers) ∷ []) refl refl refl refl refl refl
      (inl refl, (inr refl, tt)) refl refl refl
