-- ===== src/Indicators/Families.antt =====
-- backend/app/services/indicators.py: `family_keys` and `split_tags`.
use asber.Base.{
  Bool, List, Option, Text, [], codes, if◌then◌else◌, is_empty, leb, length, lower, none, not,
  one_of, reverse, some, split_on, starts_with, take, text_eq, ◌&&◌, ◌++◌, ◌-◌, ◌==◌, ◌||◌, ◌∷◌,
}
use asber.Indicators.{clean_word}

unfoldable pub format_tags : List Text
format_tags =
    codes "exe"
    ∷ codes "dll"
    ∷ codes "ps1"
    ∷ codes "js"
    ∷ codes "jse"
    ∷ codes "vbs"
    ∷ codes "vbe"
    ∷ codes "bat"
    ∷ codes "cmd"
    ∷ codes "hta"
    ∷ codes "lnk"
    ∷ codes "elf"
    ∷ codes "apk"
    ∷ codes "jar"
    ∷ codes "msi"
    ∷ codes "scr"
    ∷ codes "zip"
    ∷ codes "rar"
    ∷ codes "7z"
    ∷ codes "gz"
    ∷ codes "tar"
    ∷ codes "iso"
    ∷ codes "img"
    ∷ codes "doc"
    ∷ codes "docx"
    ∷ codes "xls"
    ∷ codes "xlsx"
    ∷ codes "ppt"
    ∷ codes "rtf"
    ∷ codes "pdf"
    ∷ codes "sh"
    ∷ codes "py"
    ∷ codes "php"
    ∷ codes "html"
    ∷ codes "swf"
    ∷ codes "32-bit"
    ∷ codes "64-bit"
    ∷ codes "x86"
    ∷ codes "x64"
    ∷ codes "arm"
    ∷ codes "mips"
    ∷ codes "mipsel"
    ∷ codes "powershell"
    ∷ codes "office"
    ∷ codes "macro"
    ∷ codes "shellcode"
    ∷ codes "binary"
    ∷ codes "script"
    ∷ codes "text"
    ∷ []

-- `_FAMILY_SUFFIX`
abbrev pub family_suffixes : List Text
family_suffixes =
    codes "rat"
    ∷ codes "stealer"
    ∷ codes "loader"
    ∷ codes "bot"
    ∷ codes "trojan"
    ∷ codes "ransomware"
    ∷ codes "miner"
    ∷ []

abbrev pub ends_with : Text → Text → Bool
ends_with s end = starts_with (reverse s) (reverse end)

abbrev pub without_suffix : List Text → Text → Text
without_suffix [] name = name
without_suffix (end ∷ ends) name =
    let rest = without_suffix ends name in
    if ends_with name end then take (length name - length end) name else rest

abbrev pub base_name : Text → List Text
base_name lowered =
    let base = without_suffix family_suffixes lowered in
    if not (is_empty base) && not (text_eq base lowered) && leb 3 (length base)
    then base ∷ []
    else []

abbrev pub lowered_keys : Option Text → List Text
lowered_keys none = []
lowered_keys (some name) =
    let lowered = lower name in
    if is_empty name
    then []
    else if one_of lowered format_tags
    then []
    else lowered ∷ base_name lowered

unfoldable pub family_keys : Option Text → List Text
unfolding clean_word format_tags
family_keys family = lowered_keys (clean_word family)

abbrev pub add_tag : List Text → Option Text → List Text
add_tag out none = out
add_tag out (some tag) = if is_empty tag || one_of tag out then out else out ++ tag ∷ []

abbrev pub add_tags : List Text → List Text → List Text
unfolding clean_word
add_tags out [] = out
add_tags out (tag ∷ tags) = add_tags (add_tag out (clean_word (some tag))) tags

abbrev pub tags_of : Option Text → List Text
tags_of none = []
tags_of (some value) = add_tags [] (split_on (λ c. c == b',') value)

unfoldable pub split_tags : Option Text → List Text
unfolding clean_word
split_tags raw = tags_of (clean_word raw)
