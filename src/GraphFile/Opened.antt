-- ===== src/GraphFile/Opened.antt =====
-- site/app/utils/graph-file.ts: the files that open.
use nest_graph_inspector.GraphFile.{Json, opened, refused, GraphFileResult}

opened_value : Json → GraphFileResult → Json
opened_value v (opened w newer) = w
opened_value v (refused problem detail) = v
