-- ===== src/Types/Examples.antt =====
-- The theorems on the domain types, on names that the program uses.
use braincrawl.Types.{parse_role}
use braincrawl.Types.Roles.{Parses, parse_role-Parses}

parse_role-Parses_example : Parses "reading-notes" (parse_role "reading-notes")
parse_role-Parses_example = parse_role-Parses "reading-notes"
