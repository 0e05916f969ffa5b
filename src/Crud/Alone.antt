-- ===== src/Crud/Alone.antt =====
-- The operations in a vault that nobody else changes and whose calls are all fine.
use vault_search_mcp.Prelude.{ℕ, false, ◌∷◌, List, String, [], nat_eq, string_eq}
use vault_search_mcp.Prelude.Text.{Text}
use vault_search_mcp.Crud.World.{World, Look, read_as, File, Files, Write}
use vault_search_mcp.Crud.Env.{Env}
use vault_search_mcp.Crud.Files.{universal_newlines}

module _ (files : Files) (writes : List Write) (ignored : List Text) where
  abbrev pub alone : List Look → World
  alone looks = record {
    files = files;
    events = [];
    races = [];
    locks = [];
    writes = writes;
    looks = looks;
    ignored = ignored;
  }

  module _ (env : Env) (path content separator raw : Text) (file : String) (f : File) (n : ℕ)
      (looks : List Look) where
    -- The text as it is read.
    abbrev text : Text
    text = universal_newlines false raw

    abbrev seen : List Look
    seen = read_as file text ∷ looks
