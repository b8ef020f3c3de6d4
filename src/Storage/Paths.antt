-- ===== src/Storage/Paths.antt =====
-- `PathBuf::join` with a text: its components between the slashes, less the empty ones and `.`; a
-- text that starts with a slash replaces the base.
use Prim.Native.Char.{code}
use Prim.Native.String.{String, [] as end_of_text, ◌∷◌ as ◌∷ˢ◌, ◌++◌ as ◌<>◌}
use bksd.Base.{
  Bool, true, List, [], ◌∷◌, ◌++◌, ◌==◌, ◌||◌, nat_eq, string_eq, if◌then◌else◌, ◌≡◌, refl,
}
use bksd.Storage.{FilePath}

abbrev push_component : String → FilePath → FilePath
push_component name path = if name == "" || name == "." then path else name ∷ path

-- The components of a text, the first of which has begun with `name`.
unfoldable pub components : String → String → FilePath
components name end_of_text = push_component name []
components name (c ∷ˢ s) =
    let next = components "" s in
    let longer = components (name <> (c ∷ˢ end_of_text)) s in
    if code c == 47 then push_component name next else longer

abbrev is_absolute : String → Bool
is_absolute end_of_text = bksd.Base.false
is_absolute (c ∷ˢ s) = code c == 47

unfoldable pub join_text : FilePath → String → FilePath
join_text base s = if is_absolute s then components "" s else base ++ components "" s

join_text_runs : join_text ("srv" ∷ []) "USB/a" ≡ "srv" ∷ "USB" ∷ "a" ∷ []
unfolding join_text components
join_text_runs = refl
