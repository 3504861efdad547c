-- ===== src/Examples/Terminal.antt =====
-- The command line on the disk of a desk that knows its identity and has no workspace.
use inputshare.Base.{arith}
use inputshare.Model.{ok}
use inputshare.Base.{[], ◌∷◌, none, ◌≡◌, refl}
use inputshare.Store.{content, ok, read_with_fallback}
use inputshare.Examples.{founded}
use inputshare.Store.Files.{Disk, load_workspace}
use inputshare.Model.{WorkspaceDoc, Platform}
use inputshare.Cli.{Setting, founded_by, init, already, done}
use inputshare.Cli.Runs.{init_once}
use inputshare.Examples.Files.{
  identities, codec_of, document-Discrete, disk, own, other, write_same,
}

abbrev known : Disk
known = record disk { identity = record disk.identity { main = content (1 ∷ 900 ∷ 12 ∷ []) } }

abbrev setting : Setting
setting = record {
  fresh = other;
  peer = other;
  public_key = λ s. s;
  identity_fault = none;
  save_fault = none;
  now_ms = 1000;
  uuid = 7;
  computer = "desk";
  platform = Platform.linux;
}

abbrev home : WorkspaceDoc
home = founded_by identities (codec_of founded) setting "home" own

init_once_example :
    (let o = init identities (codec_of home) setting "home" known in
      (o.result ≡ ok tt)
      × (init identities (codec_of home) setting "study" o.disk
          ≡ done (already "home" 7 ∷ []) o.disk))
unfolding read_with_fallback load_workspace
init_once_example =
    init_once identities (codec_of home) setting setting "home" "study" known own [] refl refl
      (write_same home (document-Discrete home home)) (λ e. ground arith) refl
