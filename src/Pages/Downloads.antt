-- ===== src/Pages/Downloads.antt =====
-- web/src/pages/Downloads.tsx: the platforms, the releases and the commands of the installation.
use Prim.Native.String
use omni_tun.Prelude.{
  String, Bool, true, false, not, Option, none, some, List, [], ◌∷◌, Dict, get, put, same_char,
  ◌&&◌, ◌==◌, if◌then◌else◌,
}
use omni_tun.Palette.{or_text}

pub record PlatformArch : Type 0 where
  pub os : String
  pub arches : List String

abbrev pub mac_os : PlatformArch
mac_os = record { os = "macOS"; arches = "amd64 (Intel)" ∷ "arm64 (Apple Silicon)" ∷ [] }

abbrev pub platform_matrix : List PlatformArch
platform_matrix =
    mac_os
    ∷ (record { os = "Linux"; arches = "amd64" ∷ "arm64" ∷ [] })
    ∷ (record { os = "Windows"; arches = "amd64" ∷ "arm64" ∷ [] })
    ∷ []

pub record VersionRelease : Type 0 where
  pub version : String
  pub date : String
  pub latest : Bool
  pub changes : List String

abbrev pub versions : List VersionRelease
versions =
    record {
      version = "v1.3.0";
      date = "2026-05-15";
      latest = true;
      changes =
          "Mesh network topology visualization" ∷ "Webhook delivery retry with configurable backoff"
          ∷ "DNS verification status auto-refresh" ∷ [];
    }
    ∷ record {
      version = "v1.2.1";
      date = "2026-04-28";
      latest = false;
      changes =
          "Fix TLS certificate renewal for custom domains"
          ∷ "Improve tunnel reconnection stability under high load" ∷ [];
    }
    ∷ record {
      version = "v1.2.0";
      date = "2026-04-10";
      latest = false;
      changes =
          "Custom domain support with automatic DNS verification"
          ∷ "Batch tunnel operations (start/stop/delete)" ∷ "Request inspector waterfall view" ∷ [];
    }
    ∷ record {
      version = "v1.1.0";
      date = "2026-03-20";
      latest = false;
      changes =
          "Mesh networking with WireGuard integration"
          ∷ "OAuth / SAML SSO for enterprise authentication" ∷ "Command palette with search" ∷ [];
    }
    ∷ record {
      version = "v1.0.0";
      date = "2026-02-14";
      latest = false;
      changes =
          "Initial release" ∷ "TCP / HTTP / HTTPS tunnel support"
          ∷ "Web dashboard with real-time traffic" ∷ "CLI tool with install scripts" ∷ [];
    }
    ∷ []

-- `versions.find((v) => v.latest)?.version`
abbrev pub latest_version : List VersionRelease → Option String
latest_version [] = none
latest_version (v ∷ vs) = if v.latest then some v.version else latest_version vs

abbrev pub cli_version : String
cli_version = or_text (latest_version versions) "v1.3.0"

-- `platformMatrix.find((p) => p.os === selectedOS) ?? platformMatrix[0]`
abbrev pub platform_of : String → List PlatformArch → PlatformArch
platform_of selected_os [] = mac_os
platform_of selected_os (p ∷ ps) =
    let rest = platform_of selected_os ps in if p.os == selected_os then p else rest

unfoldable pub selected_platform : String → PlatformArch
selected_platform selected_os = platform_of selected_os platform_matrix

-- Labels and commands.
abbrev pub curl_install : String × String
curl_install = ("curl", "curl -fsSL https://cli.omnitun.dev/install.sh | bash")

abbrev pub mac_codes : List (String × String)
mac_codes = curl_install ∷ ("brew", "brew install omnitun/tap/omnitun") ∷ []

abbrev pub linux_codes : List (String × String)
linux_codes = curl_install ∷ ("apt", "sudo apt-get install omnitun") ∷ []

abbrev pub win_codes : List (String × String)
win_codes =
    ("PowerShell", "irm https://cli.omnitun.dev/install.ps1 | iex")
    ∷ ("winget", "winget install OmniTun.CLI")
    ∷ ("choco", "choco install omnitun")
    ∷ []

unfoldable pub get_install_commands : String → List (String × String)
get_install_commands selected_os =
    if selected_os == "macOS"
    then mac_codes
    else if selected_os == "Linux"
    then linux_codes
    else if selected_os == "Windows"
    then win_codes
    else mac_codes

-- What follows the last closing parenthesis, if there is one.
abbrev pub after_last_paren : String → Option String
after_last_paren String.[] = none
after_last_paren (String.◌∷◌ c s) = elim (after_last_paren s) [
  | some rest ↦ some rest
  | none ↦ if same_char c ")" then some s else none
]

abbrev pub opens_paren : String → Bool
opens_paren String.[] = false
opens_paren (String.◌∷◌ c s) = same_char c "("

-- `s.replace(/ \(.*\)/, '')`, for a text without line breaks.
unfoldable pub without_parens : String → String
without_parens String.[] = ""
without_parens (String.◌∷◌ c s) =
    let rest = String.◌∷◌ c (without_parens s) in
    if same_char c " " && opens_paren s then or_text (after_last_paren s) rest else rest

-- `to_lower` is `toLowerCase`.
unfoldable pub get_platform_filename : (String → String) → String → String → String
get_platform_filename to_lower os arch =
    let ext = if os == "Windows" then ".zip" else ".tar.gz" in
    String.◌++◌ "omnitun_" (
      String.◌++◌ cli_version (
        String.◌++◌ "_"
          (String.◌++◌ (to_lower os) (String.◌++◌ "_" (String.◌++◌ (without_parens arch) ext)))))

-- The releases whose changes are shown: a release that was never clicked is closed.
abbrev pub shows_changes : String → Dict Bool → Bool
shows_changes version expanded = elim (get version expanded) [ none ↦ false | some b ↦ b ]

unfoldable pub toggle_version : String → Dict Bool → Dict Bool
toggle_version version expanded = put version (not (shows_changes version expanded)) expanded
