-- ===== src/Git/Tests.antt =====
-- Runs of the derivation, and the theorem at a path.
use jitenv.Base.{ℕ, ◌+◌, ◌&&◌, if◌then◌else◌, leb, ◌≡◌, refl, codes, has_prefix}
use jitenv.Git.{derive_bag_name}
use jitenv.Git.Names.{IsBagName, derive_bag_name-IsBagName}

abbrev lower : ℕ → ℕ
lower c = if leb b'A' c && leb c b'Z' then c + 32 else c

derive_run : derive_bag_name lower (codes "team/Sub_Dir/re.po.git") ≡ codes "sub-dir-re-po"
unfolding derive_bag_name has_prefix
derive_run = refl

derive_bag_name-IsBagName_example :
    IsBagName (derive_bag_name lower (codes "/Galvill//__jitenv.git"))
derive_bag_name-IsBagName_example = derive_bag_name-IsBagName lower (codes "/Galvill//__jitenv.git")
