-- ===== src/QueryParse/Examples.antt =====
-- Concrete queries.
use omni_sem.Base.{trim_matches, codes}
use omni_sem.Retrieval.Samples.{ascii}
use omni_sem.QueryParse.{parse_lexical_query}
use omni_sem.QueryParse.Safe.{Parses, parse_lexical_query-Parses}

parse_lexical_query-Parses_example :
    Parses ascii
      (trim_matches ascii.is_whitespace (codes " now OR ()"))
      (parse_lexical_query ascii (codes " now OR ()"))
parse_lexical_query-Parses_example = parse_lexical_query-Parses ascii (codes " now OR ()")
