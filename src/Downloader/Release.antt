-- ===== src/Downloader/Release.antt =====
-- resolveParams and resolveLatestAsset of internal/downloader/downloader.go.
use frp_easy.Prelude.{
  ℕ, ◌==◌, Bool, true, false, not, ◌&&◌, Option, none, some, List, [], ◌∷◌, String, str_eq, Text,
  codes, strip_suffix, Result, ok, err, if◌then◌else◌,
}

pub record Params : Type 0 where
  pub target_dir : String
  pub target_path : String
  pub archive_ext : String
  pub entry_name : String

-- a kind that is neither leaves the two names empty, as Go's zero values do
abbrev pub for_kind :
    (String → String → String) → String → String → String → String → String → Params
for_kind join dir ext kind frpc_name frps_name =
    if str_eq kind "frpc"
    then record {
      target_dir = dir;
      target_path = join dir frpc_name;
      archive_ext = ext;
      entry_name = frpc_name;
    }
    else if str_eq kind "frps"
    then record {
      target_dir = dir;
      target_path = join dir frps_name;
      archive_ext = ext;
      entry_name = frps_name;
    }
    else record { target_dir = dir; target_path = ""; archive_ext = ext; entry_name = "" }

-- resolveParams; `join` is filepath.Join
unfoldable pub resolve_params :
    (String → String → String) → String → String → String → Option Params
resolve_params join root kind goos =
    if str_eq goos "linux"
    then some (for_kind join (join root "frp_linux") ".tar.gz" kind "frpc" "frps")
    else if str_eq goos "windows"
    then some (for_kind join (join root "frp_win") ".zip" kind "frpc.exe" "frps.exe")
    else none

pub record Asset : Type 0 where
  pub name : Text
  pub download_url : String

-- ghRelease
pub record Release : Type 0 where
  pub tag_name : String
  pub assets : List Asset

-- a response: its status, whether the body can be read, and what json.Unmarshal makes of it
pub record ApiResponse : Type 0 where
  pub status_code : ℕ
  pub body_read : Bool
  pub release : Option Release

pub data AssetError : Type 0 where
  bad_request no_access rate_limited bad_body bad_json no_tag asset_os no_asset : AssetError
  http_status : ℕ → AssetError

abbrev pub has_suffix : Text → Text → Bool
has_suffix suffix s = elim (strip_suffix suffix s) [ none ↦ false | some _ ↦ true ]

-- an asset of the platform
abbrev pub matches : Text → Asset → Bool
matches suffix a = has_suffix suffix a.name && not (str_eq a.download_url "")

-- the loop over the assets
unfoldable pub pick_asset : Text → List Asset → Option String
unfolding strip_suffix
pick_asset suffix [] = none
pick_asset suffix (a ∷ as') =
    let rest = pick_asset suffix as' in if matches suffix a then some a.download_url else rest

abbrev pub suffix_for : String → Option Text
suffix_for goos =
    if str_eq goos "linux"
    then some (codes "_linux_amd64.tar.gz")
    else if str_eq goos "windows"
    then some (codes "_windows_amd64.zip")
    else none

abbrev pub picked : String → Option String → Result AssetError (String × String)
picked tag none = err no_asset
picked tag (some url) = ok (url, tag)

abbrev pub with_suffix : Release → Option Text → Result AssetError (String × String)
with_suffix rel none = err asset_os
with_suffix rel (some suffix) = picked rel.tag_name (pick_asset suffix rel.assets)

abbrev pub with_release : String → Option Release → Result AssetError (String × String)
with_release goos none = err bad_json
with_release goos (some rel) =
    if str_eq rel.tag_name "" then err no_tag else with_suffix rel (suffix_for goos)

abbrev pub with_response : String → Option ApiResponse → Result AssetError (String × String)
with_response goos none = err no_access
with_response goos (some r) =
    if r.status_code == 403
    then err rate_limited
    else if not (r.status_code == 200)
    then err (http_status r.status_code)
    else if not r.body_read
    then err bad_body
    else with_release goos r.release

-- (*Manager).resolveLatestAsset: the URL and the version, from the response if there is one
unfoldable pub resolve_latest_asset :
    Bool → String → Option ApiResponse → Result AssetError (String × String)
unfolding pick_asset
resolve_latest_asset request_built goos response =
    if not request_built then err bad_request else with_response goos response
