-- ===== src/Config/Remote.antt =====
-- The configuration that is kept in etcd: `LoadRemote`, `LoadLocal`, `LoadAllConfig` and the ticks of
-- `checkRemoteVersion`. `Disk` has the three files of one configuration; `Answers` is what etcd and
-- the file system do meanwhile, where `none` is an error of `etcdGet`.
pub mod Versions
mod Tests
use easycall.Base.{
  Bytes, Bool, true, false, Option, none, some, List, [], ◌∷◌, if◌then◌else◌, Outcome, ok, err,
  panic,
}
use easycall.Base.Int.{ℤ, pos, ltb_ℤ}
use easycall.Config.{EasyConfig, load}
use easycall.Config.Strings.{parse_int}

pub record Disk : Type 0 where
  pub version : Option Bytes
  pub remote : Option Bytes
  pub local : Option Bytes

pub record RemoteConfig : Type 0 where
  pub config : EasyConfig
  pub config_loaded : Bool
  pub config_version : ℤ
  pub disk : Disk

-- `directory` is the error of `MkdirAll`, if any; `written` is what a file holds after `WriteFile`.
pub record Answers : Type 0 where
  pub directory : Option Bytes
  pub version : Option Bytes
  pub remote_data : Option Bytes
  pub written : Bytes → Option Bytes

-- `strconv.Atoi`, of which the error is dropped; what could not be read is 0.
abbrev pub version_num : Option Bytes → ℤ
version_num none = pos 0
version_num (some v) = parse_int v

unfoldable pub save_version : Answers → RemoteConfig → RemoteConfig
save_version w c = elim w.version [
  | none ↦ c
  | some v ↦ record c {
    config_version = parse_int v;
    disk = record (c.disk) { version = w.written v };
  }
]

unfoldable pub save_data : Answers → RemoteConfig → RemoteConfig
save_data w c = elim w.remote_data [
  | none ↦ c
  | some d ↦ record c { disk = record (c.disk) { remote = w.written d } }
]

-- `Load`, if the file exists; its error is logged.
unfoldable pub load_file : Option Bytes → RemoteConfig → RemoteConfig
load_file none c = c
load_file (some content) c = record c { config = (load (ok content) none c.config).0 }

-- The part between the two directories and the file: the versions, and the data if it is newer.
unfoldable pub fetch : Answers → RemoteConfig → RemoteConfig
fetch w c =
    let c' = save_version w c in
    if ltb_ℤ (version_num c.disk.version) (version_num w.version) then save_data w c' else c'

unfoldable pub load_remote : Answers → RemoteConfig → RemoteConfig × Outcome (Unit {0})
load_remote w c = elim w.directory [
  | some e ↦ (c, err e)
  | none ↦ let c' = fetch w c in (load_file c'.disk.remote c', ok tt)
]

unfoldable pub load_local : Answers → RemoteConfig → RemoteConfig × Outcome (Unit {0})
load_local w c = elim w.directory [ some e ↦ (c, err e) | none ↦ (load_file c.disk.local c, ok tt) ]

-- What follows `LoadRemote`.
unfoldable pub then_local :
    Answers → RemoteConfig × Outcome (Unit {0}) → RemoteConfig × Outcome (Unit {0})
then_local w (c, ok u) = load_local w (record c { config_loaded = true })
then_local w (c, err e) = (c, err e)
then_local w (c, panic) = (c, panic)

unfoldable pub load_all_config : Answers → RemoteConfig → RemoteConfig × Outcome (Unit {0})
load_all_config w c = then_local w (load_remote w c)

-- One tick of `checkRemoteVersion`: `seen` is the version it reads, and `w` what a reload is answered.
unfoldable pub check_remote_version : Option Bytes → Answers → RemoteConfig → RemoteConfig
check_remote_version seen w c =
    if ltb_ℤ c.config_version (version_num seen) then (load_all_config w c).0 else c
