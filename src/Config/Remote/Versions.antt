-- ===== src/Config/Remote/Versions.antt =====
-- When new data of a remote configuration is loaded, and when it never is.
use easycall.Base.{
  ◌≡◌, ◌⊎◌, inl, inr, refl, ap, ◌∙◌, Bytes, true, false, Option, none, some, List, [], ◌∷◌, ok,
  arith,
}
use easycall.Base.Int.{ℤ, pos, ltb_ℤ}
use easycall.Config.{EasyConfig, load}
use easycall.Config.Strings.{parse_int}
use easycall.Config.Remote.{
  RemoteConfig, Answers, version_num, save_version, save_data, load_file, fetch, load_remote,
  load_local, then_local, load_all_config, check_remote_version,
}

-- The settings of a file, put over those that are there.
abbrev over : Option Bytes → EasyConfig → EasyConfig
over none ec = ec
over (some content) ec = (load (ok content) none ec).0

load_file-config :
    (file : Option Bytes) (c : RemoteConfig) → (load_file file c).config ≡ over file c.config
unfolding load_file
load_file-config none c = refl
load_file-config (some content) c = refl

load_file-disk : (file : Option Bytes) (c : RemoteConfig) → (load_file file c).disk ≡ c.disk
unfolding load_file
load_file-disk none c = refl
load_file-disk (some content) c = refl

load_file-version :
    (file : Option Bytes) (c : RemoteConfig) → (load_file file c).config_version ≡ c.config_version
unfolding load_file
load_file-version none c = refl
load_file-version (some content) c = refl

-- The configuration with a version saved.
abbrev at_version : Bytes → RemoteConfig → RemoteConfig
at_version v c = record c {
  config_version = parse_int v;
  disk = record (c.disk) { version = some v };
}

save_version-some :
    (w : Answers) (c : RemoteConfig) (v : Bytes)
    → w.version ≡ some v
    → w.written v ≡ some v
    → save_version w c ≡ at_version v c
unfolding save_version
save_version-some w c v ver wv = rw (save_version, ver) (rw wv refl)

save_data-some :
    (w : Answers) (c : RemoteConfig) (d : Bytes)
    → w.remote_data ≡ some d
    → w.written d ≡ some d
    → save_data w c ≡ record c { disk = record (c.disk) { remote = some d } }
unfolding save_data
save_data-some w c d dat wd = rw (save_data, dat) (rw wd refl)

save_data-none : (w : Answers) (c : RemoteConfig) → w.remote_data ≡ none → save_data w c ≡ c
unfolding save_data
save_data-none w c dat = rw (save_data, dat) refl

fetch_newer :
    (w : Answers) (c : RemoteConfig) (v : Bytes)
    → w.version ≡ some v
    → w.written v ≡ some v
    → ltb_ℤ (version_num c.disk.version) (parse_int v) ≡ true
    → fetch w c ≡ save_data w (at_version v c)
unfolding fetch
fetch_newer w c v ver wv newer =
    let t : ltb_ℤ (version_num c.disk.version) (version_num w.version) ≡ true =
      ap (λ o. ltb_ℤ (version_num c.disk.version) (version_num o)) ver ∙ newer in
    rw (fetch, t) (ap (save_data w) (save_version-some w c v ver wv))

fetch_same :
    (w : Answers) (c : RemoteConfig) (v : Bytes)
    → w.version ≡ some v
    → w.written v ≡ some v
    → ltb_ℤ (version_num c.disk.version) (parse_int v) ≡ false
    → fetch w c ≡ at_version v c
unfolding fetch
fetch_same w c v ver wv older =
    let t : ltb_ℤ (version_num c.disk.version) (version_num w.version) ≡ false =
      ap (λ o. ltb_ℤ (version_num c.disk.version) (version_num o)) ver ∙ older in
    rw (fetch, t) (save_version-some w c v ver wv)

load_remote_fetched :
    (w : Answers) (c : RemoteConfig)
    → w.directory ≡ none
    → load_remote w c ≡ (load_file (fetch w c).disk.remote (fetch w c), ok tt)
unfolding load_remote
load_remote_fetched w c dir = simp (load_remote, dir)

load_local_read :
    (w : Answers) (c : RemoteConfig)
    → w.directory ≡ none
    → (load_local w c).0 ≡ load_file c.disk.local c
unfolding load_local
load_local_read w c dir = rw (load_local, dir) refl

-- The files are read when the versions are done with.
loaded :
    (w : Answers) (c c1 : RemoteConfig)
    → w.directory ≡ none
    → fetch w c ≡ c1
    → (load_all_config w c).0 ≡ (
        let c2 : RemoteConfig = record (load_file c1.disk.remote c1) { config_loaded = true } in
        load_file c2.disk.local c2)
unfolding load_all_config then_local
loaded w c c1 dir f =
    let c2 : RemoteConfig = record (load_file c1.disk.remote c1) { config_loaded = true } in
    ap (λ r. (then_local w r).0)
      (load_remote_fetched w c dir ∙ ap (λ c1. (load_file c1.disk.remote c1, ok tt)) f)
    ∙ load_local_read w c2 dir

-- Where etcd has a version greater than that of the file, and gives the data, and the files hold what
-- is written to them: a reload saves version and data, and puts the settings of the data, and over
-- these those of the local file, over the settings that were there.
pub load_all_config_newer :
    (w : Answers) (c : RemoteConfig) (v d : Bytes)
    → w.directory ≡ none
    → w.version ≡ some v
    → w.remote_data ≡ some d
    → w.written v ≡ some v
    → w.written d ≡ some d
    → ltb_ℤ (version_num c.disk.version) (parse_int v) ≡ true
    → let c' = (load_all_config w c).0 in
      (c'.config ≡ over c.disk.local (over (some d) c.config))
      × (c'.config_version ≡ parse_int v)
      × (c'.disk ≡ record { version = some v; remote = some d; local = c.disk.local })
load_all_config_newer w c v d dir ver dat wv wd newer =
    let c1 : RemoteConfig = record c {
      config_version = parse_int v;
      disk = record { version = some v; remote = some d; local = c.disk.local };
    } in
    let f = fetch_newer w c v ver wv newer ∙ save_data-some w (at_version v c) d dat wd in
    let c2 : RemoteConfig = record (load_file (some d) c1) { config_loaded = true } in
    let e = loaded w c c1 dir f in
    let g : c2.disk.local ≡ c.disk.local = ap (λ k. k.local) (load_file-disk (some d) c1) in
    (
      ap (λ k. k.config) e
          ∙ load_file-config c2.disk.local c2
          ∙ ap (λ l. over l c2.config) g
          ∙ ap (over c.disk.local) (load_file-config (some d) c1),
      ap (λ k. k.config_version) e
          ∙ load_file-version c2.disk.local c2
          ∙ load_file-version (some d) c1,
      ap (λ k. k.disk) e ∙ load_file-disk c2.disk.local c2 ∙ load_file-disk (some d) c1,
    )

-- One tick after the other: what each sees, and what a reload by it would be answered.
abbrev pub run_ticks : List (Option Bytes × Answers) → RemoteConfig → RemoteConfig
run_ticks [] c = c
run_ticks ((seen, w) ∷ rest) c = run_ticks rest (check_remote_version seen w c)

-- Every tick sees this version, or fails to see any.
abbrev pub Steady : Bytes → List (Option Bytes × Answers) → Type 0
Steady v [] = Unit {0}
Steady v ((seen, w) ∷ rest) = ((seen ≡ some v) ⊎ (seen ≡ none)) × Steady v rest

not_less : (x : ℤ) → ltb_ℤ x x ≡ false
not_less x = ground arith

ticks_rest :
    (v : Bytes) (ticks : List (Option Bytes × Answers)) (c : RemoteConfig)
    → Steady v ticks
    → c.config_version ≡ parse_int v
    → ltb_ℤ (parse_int v) (pos 0) ≡ false
    → run_ticks ticks c ≡ c
unfolding check_remote_version
ticks_rest v [] c k e nn = refl
ticks_rest v ((seen, w) ∷ rest) c (inl s, k) e nn =
    let n : ltb_ℤ c.config_version (version_num seen) ≡ false =
      ap (λ x. ltb_ℤ x (version_num seen)) e
      ∙ ap (λ o. ltb_ℤ (parse_int v) (version_num o)) s
      ∙ not_less (parse_int v) in
    rw (check_remote_version, n) (ticks_rest v rest c k e nn)
ticks_rest v ((seen, w) ∷ rest) c (inr s, k) e nn =
    let n : ltb_ℤ c.config_version (version_num seen) ≡ false =
      ap (λ x. ltb_ℤ x (version_num seen)) e
      ∙ ap (λ o. ltb_ℤ (parse_int v) (version_num o)) s
      ∙ nn in
    rw (check_remote_version, n) (ticks_rest v rest c k e nn)

-- Where a reload reads a version, not negative and greater than that of the file, saves it, and then
-- fails to get the data: no later tick that sees this version, or none, changes anything; and a new
-- start of the program that reads this version again leaves the file of the data as it was before
-- the reload.
pub data_never_loaded :
    (w w' : Answers) (c : RemoteConfig) (v : Bytes) (ec : EasyConfig)
    (ticks : List (Option Bytes × Answers))
    → w.directory ≡ none
    → w.version ≡ some v
    → w.written v ≡ some v
    → w.remote_data ≡ none
    → ltb_ℤ (version_num c.disk.version) (parse_int v) ≡ true
    → ltb_ℤ (parse_int v) (pos 0) ≡ false
    → Steady v ticks
    → w'.directory ≡ none
    → w'.version ≡ some v
    → w'.written v ≡ some v
    → let c' = (load_all_config w c).0 in
      let again : RemoteConfig = record {
        config = ec;
        config_loaded = false;
        config_version = pos 0;
        disk = c'.disk;
      } in
      (run_ticks ticks c' ≡ c')
      × (c'.disk.remote ≡ c.disk.remote)
      × ((load_all_config w' again).0.disk.remote ≡ c.disk.remote)
data_never_loaded w w' c v ec ticks dir ver wv dat newer nn steady dir' ver' wv' =
    let c1 = at_version v c in
    let f : fetch w c ≡ c1 = fetch_newer w c v ver wv newer ∙ save_data-none w c1 dat in
    let c2 : RemoteConfig = record (load_file c1.disk.remote c1) { config_loaded = true } in
    let e = loaded w c c1 dir f in
    let version =
      ap (λ k. k.config_version) e
      ∙ load_file-version c2.disk.local c2
      ∙ load_file-version c1.disk.remote c1 in
    let disk =
      ap (λ k. k.disk) e ∙ load_file-disk c2.disk.local c2 ∙ load_file-disk c1.disk.remote c1 in
    let again : RemoteConfig = record {
      config = ec;
      config_loaded = false;
      config_version = pos 0;
      disk = (load_all_config w c).0.disk;
    } in
    let older : ltb_ℤ (version_num again.disk.version) (parse_int v) ≡ false =
      ap (λ k. ltb_ℤ (version_num k.version) (parse_int v)) disk ∙ not_less (parse_int v) in
    let a1 = at_version v again in
    let a2 : RemoteConfig = record (load_file a1.disk.remote a1) { config_loaded = true } in
    let e' = loaded w' again a1 dir' (fetch_same w' again v ver' wv' older) in
    (
      ticks_rest v ticks (load_all_config w c).0 steady version nn,
      ap (λ k. k.remote) disk,
      ap (λ k. k.disk.remote) e'
          ∙ ap (λ k. k.remote) (load_file-disk a2.disk.local a2 ∙ load_file-disk a1.disk.remote a1)
          ∙ ap (λ k. k.remote) disk,
    )
