-- ===== src/Controller/Builder.antt =====
-- service/controller/inboundbuilder.go, outboundbuilder.go and the builders of stream_resolve.go:
-- from the configuration and the panel's node to what xray-core is given.
pub mod Settings
pub mod Tls
pub mod Xhttp
pub mod Streams
pub mod Inbound
pub mod Steps
pub mod Paths
pub mod Built
pub mod Tests
