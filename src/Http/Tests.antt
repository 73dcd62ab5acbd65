-- ===== src/Http/Tests.antt =====
-- Runs of the URL reader, the request builder and the redirects, and the theorems at concrete inputs.
use esp_modem_link.Common.{◌≡◌, refl, true, false, [], ◌∷◌, ◌++◌}
use esp_modem_link.Common.Lists.{Bytes, All, codes}
use esp_modem_link.Common.Search.{index_of}
use esp_modem_link.Http.Headers.{Distinct}
use esp_modem_link.Http.Request.{HttpRequestOptions, request_headers}
use esp_modem_link.Http.Request.Framing.{Framed, request_headers-Framed}
use esp_modem_link.Http.Redirect.{
  normalize_path, from_index, split_path, push_segments, join_segments, ends_with,
}
use esp_modem_link.Http.Redirect.Normal.{NotDots, normalize_path-NotDots}
use esp_modem_link.Http.Url.{ParsedUrl}

abbrev printer : ParsedUrl
printer = record { tls = false; host = codes "lan"; port = 8080; path = codes "/a/b?c" }

abbrev upload : HttpRequestOptions
upload = record {
  method = codes "POST";
  headers = (codes "content-length", codes "7") ∷ (codes "X-A", codes "1") ∷ [];
  body = codes "abc";
  keep_alive = true;
  user_agent = codes "test";
  chunked_upload = true;
}

request_headers-Framed_example :
    Distinct (request_headers printer upload)
    × Framed upload.chunked_upload upload.body upload.headers (request_headers printer upload)
request_headers-Framed_example = request_headers-Framed printer upload

normalize_path-NotDots_example :
    (normal : Bytes) × (normalize_path (codes "/a/../b/./c?d")
      ≡ normal ++ from_index (index_of b'?' (codes "/a/../b/./c?d")) (codes "/a/../b/./c?d"))
    × All NotDots (split_path normal)
normalize_path-NotDots_example = normalize_path-NotDots (codes "/a/../b/./c?d")

dots_removed : normalize_path (codes "/a/../b/./c/?d=../e") ≡ codes "/b/c/?d=../e"
unfolding normalize_path split_path push_segments join_segments ends_with index_of
dots_removed = refl
